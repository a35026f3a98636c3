-- ===== src/RandomGeneration/Agreement.antt =====
-- Two parties that run the protocol of examples/random-generation-protocol/src/lib.rs.
use round_based.Prelude.{
  ℕ, ◌<◌, ◌≡◌, ◌≢◌, sym, ap, ◌∙◌, subst, inl, inr, some, List, arith, length, Result, ok, ◌==◌,
  Bool-cases, u16_mod,
}
use round_based.Delivery.{Incoming, PartyIndex, MsgId}
use round_based.Mpc.Party.{Sink}
use round_based.RandomGeneration.Combined.{combined_ext}
use round_based.RandomGeneration.Run.{IsSent, start}
use round_based.RandomGeneration.Received.{commit_from, HasOpenedTo}
use round_based.RandomGeneration.Guarantee.{run-output}
use round_based.RandomGeneration.{Bytes, Msg, Party, protocol_of_random_generation}

module _ {E : Type 0} where
  -- What reliable broadcast promises of two streams: a party's commitment is the same in both.
  abbrev pub IsConsistent : List (Result (Incoming Msg) E) → List (Result (Incoming Msg) E) → Type 0
  IsConsistent incomings incomings' =
      (j : PartyIndex) (id id' : MsgId) (c c' : Bytes)
      → IsSent incomings (commit_from j id c)
      → IsSent incomings' (commit_from j id' c')
      → c ≡ c'

  -- What a stream yields as the commitment of an honest party is that party's.
  abbrev pub IsAuthentic : List (Result (Incoming Msg) E) → PartyIndex → Bytes → Type 0
  IsAuthentic incomings j commitment =
      (id : MsgId) (c : Bytes) → IsSent incomings (commit_from j id c) → c ≡ commitment

abbrev pub IsCollisionFree : (Bytes → Bytes) → Type 0
IsCollisionFree digest = (x y : Bytes) → digest x ≡ digest y → x ≡ y

module _ (digest : Bytes → Bytes) (injective : IsCollisionFree digest) (E : Type 0) (K : Sink Msg E)
    (incomings incomings' : List (Result (Incoming Msg) E)) (outgoings outgoings' : K.State)
    (i i' : PartyIndex) (n : ℕ) (local local' : Bytes) (mpc mpc' : Party E K) where
  opened_agree :
      (opened opened' : ℕ → Bytes)
      → IsConsistent incomings incomings'
      → IsAuthentic incomings i' (digest local')
      → IsAuthentic incomings' i (digest local)
      → i ≢ i'
      → opened i ≡ local
      → opened' i' ≡ local'
      → ((j : ℕ) → j < n → j ≢ i → HasOpenedTo incomings digest j (opened j))
      → ((j : ℕ) → j < n → j ≢ i' → HasOpenedTo incomings' digest j (opened' j))
      → (j : ℕ) → j < n
      → opened j ≡ opened' j
  opened_agree opened opened' same auth auth' apart own own' heard heard' j near =
      elim (Bool-cases (j == i)) [
        | inl first ↦
            let at : i ≡ j = ground arith in
            let (id, _, _, sent, _) = heard' j near (λ e. apart (at ∙ e)) in
            let authentic = subst (λ k. IsAuthentic incomings' k (digest local)) at auth' in
            ap opened (sym at) ∙ own ∙ sym (injective _ _ (authentic id _ sent))
        | inr other ↦
            let (id, _, _, sent, _) = heard j near (ground arith) in
            elim (Bool-cases (j == i')) [
              | inl second ↦
                  let at : i' ≡ j = ground arith in
                  let authentic = subst (λ k. IsAuthentic incomings k (digest local')) at auth in
                  injective _ _ (authentic id _ sent) ∙ sym own' ∙ ap opened' at
              | inr other' ↦
                  let (id', _, _, sent', _) = heard' j near (ground arith) in
                  injective _ _ (same j id id' _ _ sent sent')
            ]
      ]

  -- Let two different parties of a run return an output each. If the digest has no collisions, the
  -- reliable broadcast delivers the same commitments to both, and neither was handed a commitment
  -- in the name of the other that is not the other's, then the two outputs are equal, whatever the
  -- remaining parties sent, and to whom.
  pub run-agreement :
      (out out' : Bytes)
      → n < u16_mod
      → i ≢ i'
      → length local ≡ 32
      → length local' ≡ 32
      → IsConsistent incomings incomings'
      → IsAuthentic incomings i' (digest local')
      → IsAuthentic incomings' i (digest local)
      → protocol_of_random_generation E K digest (start E K incomings outgoings) i n local
        ≡ some (mpc, ok out)
      → protocol_of_random_generation E K digest (start E K incomings' outgoings') i' n local'
        ≡ some (mpc', ok out')
      → out ≡ out'
  run-agreement out out' fits apart full full' same auth auth' run run' =
      let (opened, own, is, heard) =
        run-output digest E K incomings outgoings i n local mpc out fits full run in
      let (opened', own', is', heard') =
        run-output digest E K incomings' outgoings' i' n local' mpc' out' fits full' run' in
      is
      ∙ combined_ext opened opened' n
          (opened_agree opened opened' same auth auth' apart own own' heard heard')
      ∙ sym is'
