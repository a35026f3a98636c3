-- ===== src/RandomGeneration/Guarantee.antt =====
-- What a result of the protocol of examples/random-generation-protocol/src/lib.rs says of the
-- messages that the party received.
use round_based.Prelude.{
  ℕ, ◌<◌, ◌≡◌, ◌≢◌, sym, ap, ◌∙◌, subst, inl, inr, none, some, List, [], arith, length, Result, ok,
  err, ◌==◌, ==_ne, ==_refl, if◌then◌else◌, Bool-cases, u16_mod,
}
use round_based.Delivery.{Incoming, PartyIndex, MsgId}
use round_based.Round.SimpleStore.{RoundInput, RoundMsgs, output}
use round_based.Round.SimpleStore.Fed.{output-heard}
use round_based.Round.SimpleStore.Invariant.{received}
use round_based.Mpc.Party.{Sink}
use round_based.RandomGeneration.Blames.{Cheated, IsListed, bytes_eq_iff, verify-blames}
use round_based.RandomGeneration.Combined.{combined, HasOpened, verify-combined}
use round_based.RandomGeneration.Run.{IsSent, start, run-IsSettled, Store1, Store2}
use round_based.RandomGeneration.{
  Bytes, Msg, CommitMsg, DecommitMsg, Blame, bytes_eq,
  parties_opened_randomness_doesnt_match_commitment, Party, verify, protocol_of_random_generation,
}
use round_based.RandomGeneration.Received.{
  HasOpenedTo, HasCheated, commit_from, commit-IsSent, decommit-IsSent,
}

opened_item :
    (digest : Bytes → Bytes) (s1 : RoundInput CommitMsg) (s2 : RoundInput DecommitMsg)
    (j id id' : ℕ) (c : CommitMsg) (d : DecommitMsg)
    → ((b : Blame) → ¬ Cheated digest s1 s2 b)
    → received s1 j ≡ some (id, c)
    → received s2 j ≡ some (id', d)
    → c.commitment ≡ digest d.randomness
unfolding Cheated
opened_item digest s1 s2 j id id' c d honest held held' =
    elim (Bool-cases (bytes_eq c.commitment (digest d.randomness))) [
      | inl same ↦ (bytes_eq_iff c.commitment (digest d.randomness)).0 same
      | inr differ ↦ absurd (
          honest (record { guilty_party = j; commitment_msg = id; decommitment_msg = id' })
            (
              c,
              d,
              held,
              held',
              λ e. ground (arith, (bytes_eq_iff c.commitment (digest d.randomness)).1 e),
            ))
    ]

module _ {E : Type 0} (incomings : List (Result (Incoming Msg) E)) (i : PartyIndex) (n : ℕ) where
  -- The bytes that a party is known to have opened.
  opened_by : Bytes → RoundInput DecommitMsg → ℕ → Bytes
  opened_by local s2 j =
      if j == i then local else elim (received s2 j) [ some e ↦ e.1.randomness | none ↦ [] ]

  Cheated-IsSent :
      (digest : Bytes → Bytes) (s1 : RoundInput CommitMsg) (s2 : RoundInput DecommitMsg) (b : Blame)
      → Store1 incomings i n s1
      → Store2 incomings i n s2
      → Cheated digest s1 s2 b
      → HasCheated incomings digest b
  unfolding Cheated
  Cheated-IsSent digest s1 s2 b fed1 fed2 (c, d, held, held', ne) =
      let (reliable, sent) =
        decommit-IsSent incomings i n s2 b.guilty_party b.decommitment_msg d fed2 held' in
      (
        c.commitment,
        d.randomness,
        reliable,
        commit-IsSent incomings i n s1 b.guilty_party b.commitment_msg c fed1 held,
        sent,
        ne,
      )

  opened_by_own : (local : Bytes) (s2 : RoundInput DecommitMsg) → opened_by local s2 i ≡ local
  unfolding opened_by
  opened_by_own local s2 = rw (opened_by, ==_refl i)

  opened_by_other :
      (local : Bytes) (s2 : RoundInput DecommitMsg) (j : ℕ) (e : MsgId × DecommitMsg)
      → j ≢ i
      → received s2 j ≡ some e
      → e.1.randomness ≡ opened_by local s2 j
  unfolding opened_by
  opened_by_other local s2 j e other held = rw (opened_by, ==_ne j i other, held)

  module _ (digest : Bytes → Bytes) (local : Bytes) (s1 : RoundInput CommitMsg)
      (s2 : RoundInput DecommitMsg) (r1 : RoundMsgs CommitMsg) (r2 : RoundMsgs DecommitMsg)
      (fed1 : Store1 incomings i n s1) (fed2 : Store2 incomings i n s2) (e1 : output s1 ≡ ok r1)
      (e2 : output s2 ≡ ok r2) where
    same_i : s1.i ≡ s2.i
    same_i = fed1.own_index ∙ sym fed2.own_index

    same_n : s1.n ≡ s2.n
    same_n = fed1.parties ∙ sym fed2.parties

    opened_to :
        ((b : Blame) → ¬ Cheated digest s1 s2 b)
        → (j : ℕ) → j < n
        → j ≢ i
        → HasOpenedTo incomings digest j (opened_by local s2 j)
    opened_to honest j near other =
        let ((id, c), held) =
          output-heard s1 r1 j fed1.valid e1 (ground (arith, fed1.parties))
            (ground (arith, fed1.own_index)) in
        let ((id', d), held') =
          output-heard s2 r2 j fed2.valid e2 (ground (arith, fed2.parties))
            (ground (arith, fed2.own_index)) in
        let (reliable, sent') = decommit-IsSent incomings i n s2 j id' d fed2 held' in
        let sent = commit-IsSent incomings i n s1 j id c fed1 held in
        let opens : c.commitment ≡ digest d.randomness =
          opened_item digest s1 s2 j id id' c d honest held held' in
        let same = opened_by_other local s2 j (id', d) other held' in
        rw (sym same)
          (id, id', reliable, subst (λ x. IsSent incomings (commit_from j id x)) opens sent, sent')

    opened_by-HasOpened : HasOpened s2 (opened_by local s2)
    opened_by-HasOpened j near other =
        let ((id, d), held) = output-heard s2 r2 j fed2.valid e2 near other in
        let same = opened_by_other local s2 j (id, d) (ground (arith, fed2.own_index)) held in
        (id, held ∙ ap (λ x. some (id, record { randomness = x })) same)

    verified-output :
        (RecvErr SendErr : Type 0) (out : Bytes)
        → length local ≡ 32
        → ok out ≡ verify digest {RecvErr = RecvErr} {SendErr = SendErr} r1 r2 local
        → (opened : ℕ → Bytes) × (opened i ≡ local)
          × (out ≡ combined opened n)
          × ((j : ℕ) → j < n → j ≢ i → HasOpenedTo incomings digest j (opened j))
    verified-output RecvErr SendErr out full e =
        elim (verify-blames digest s1 s2 r1 r2 fed1.valid fed2.valid e1 e2 same_i same_n RecvErr
          SendErr local) [
            | inr (guilty, e', _, _) ↦ ground (arith, e ∙ e')
            | inl (_, honest) ↦
                let own = opened_by_own local s2 in
                let at_i : opened_by local s2 s1.i ≡ local =
                  ap (opened_by local s2) fed1.own_index ∙ own in
                let whole =
                  verify-combined digest s1 s2 r1 r2 fed1.valid fed2.valid e1 e2 same_i same_n
                    RecvErr SendErr (opened_by local s2) opened_by-HasOpened (ap length at_i ∙ full)
                    honest in
                let out_is : ok out ≡ ok (combined (opened_by local s2) n) =
                  e
                  ∙ ap (verify digest r1 r2) (sym at_i)
                  ∙ whole
                  ∙ ap (λ k. ok (combined (opened_by local s2) k)) fed1.parties in
                (opened_by local s2, own, ground (arith, out_is), opened_to honest)
          ]

    verified-blames :
        (RecvErr SendErr : Type 0) (guilty : List Blame)
        → err (parties_opened_randomness_doesnt_match_commitment guilty)
          ≡ verify digest {RecvErr = RecvErr} {SendErr = SendErr} r1 r2 local
        → (b : Blame) → IsListed guilty b
        → HasCheated incomings digest b
    verified-blames RecvErr SendErr guilty e b at =
        elim (verify-blames digest s1 s2 r1 r2 fed1.valid fed2.valid e1 e2 same_i same_n RecvErr
          SendErr local) [
            | inl (e', _) ↦ ground (arith, e ∙ e')
            | inr (guilty', e', _, listed) ↦
                let same : guilty ≡ guilty' = ground (arith, e ∙ e') in
                Cheated-IsSent digest s1 s2 b fed1 fed2
                  ((listed b).0 (subst (λ g. IsListed g b) same at))
          ]

module _ (digest : Bytes → Bytes) (E : Type 0) (K : Sink Msg E)
    (incomings : List (Result (Incoming Msg) E)) (outgoings : K.State) (i : PartyIndex) (n : ℕ)
    (local : Bytes) (mpc : Party E K) where
  -- When a run of party `i` of `n`, with 32 bytes of its own, returns an output, then whatever the
  -- stream yielded, it yielded a reliably broadcast commitment and a broadcast opening from every
  -- other party, where the commitment is the digest of what was opened; and the output is the
  -- exclusive or of the bytes of all parties, taken in the order of their indices.
  pub run-output :
      (out : Bytes)
      → n < u16_mod
      → length local ≡ 32
      → protocol_of_random_generation E K digest (start E K incomings outgoings) i n local
        ≡ some (mpc, ok out)
      → (opened : ℕ → Bytes) × (opened i ≡ local)
        × (out ≡ combined opened n)
        × ((j : ℕ) → j < n → j ≢ i → HasOpenedTo incomings digest j (opened j))
  run-output out fits full run =
      elim (run-IsSettled E K incomings outgoings i n digest local mpc (ok out) fits run) [
        | inl interrupted ↦ absurd interrupted
        | inr (s1, s2, r1, r2, fed1, fed2, e1, e2, e) ↦
            verified-output incomings i n digest local s1 s2 r1 r2 fed1 fed2 e1 e2 _ _ out full e
      ]

  -- When a run reports that parties cheated, then the stream yielded, for each party on the list, a
  -- reliably broadcast commitment and a broadcast opening from it, with the two ids of the report,
  -- and the commitment is not the digest of what was opened: no other party is blamed.
  pub run-blames :
      (guilty : List Blame) (b : Blame)
      → n < u16_mod
      → protocol_of_random_generation E K digest (start E K incomings outgoings) i n local
        ≡ some (mpc, err (parties_opened_randomness_doesnt_match_commitment guilty))
      → IsListed guilty b
      → HasCheated incomings digest b
  run-blames guilty b fits run at =
      elim (run-IsSettled E K incomings outgoings i n digest local mpc _ fits run) [
        | inl interrupted ↦ absurd interrupted
        | inr (s1, s2, r1, r2, fed1, fed2, e1, e2, e) ↦
            verified-blames incomings i n digest local s1 s2 r1 r2 fed1 fed2 e1 e2 _ _ guilty e b at
      ]
