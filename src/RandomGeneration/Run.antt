-- ===== src/RandomGeneration/Run.antt =====
-- Whole runs of the protocol of examples/random-generation-protocol/src/lib.rs over `MpcParty`,
-- whatever the other parties send.
use round_based.Prelude.{
  ℕ, ◌<◌, ◌≡◌, ◌≢◌, ◌⊎◌, refl, sym, ◌∙◌, subst, inl, inr, true, false, none, some, List, [], ◌∷◌,
  arith, get_elem?, Result, ok, err, Option-cases, u16_mod,
}
use round_based.Delivery.{Incoming, Outgoing, PartyIndex, broadcast}
use round_based.Round.SimpleStore.{
  RoundInput, RoundMsgs, RoundInputError, output, is_expected_type, wants_more,
}
use round_based.Round.SimpleStore
use round_based.Round.SimpleStore.Fed.{new-IsFed}
use round_based.Mpc.Process.{new}
use round_based.Mpc.Router.{RoundsRouter, add_round, lookup, insert, empty}
use round_based.Mpc.Party.{
  Sink, MpcParty, connected_halves, complete, send, send_to_all, reliably_broadcast,
}
use round_based.Mpc.Party.Sending.{send-kept}
use round_based.Mpc.Party
use round_based.Mpc.Party.Held.{HoldsAt, AllSent, FromStore, new-Holds}
use round_based.Mpc.Party.Origin.{complete-FromStore, complete_other}
use round_based.RandomGeneration.Lawful.{protocol-IsLawful, IsRoundStore, OfRound, round-IsKept}
use round_based.RandomGeneration.{
  Bytes, Msg, CommitMsg, DecommitMsg, round1_send, round1_receive, round2_send, round2_receive,
  parties_opened_randomness_doesnt_match_commitment, protocol, round1, round2, Received,
  round_number, verify, Party, ErrorM, define_rounds, execute, after_commit, after_round1,
  after_decommit, after_round2, protocol_of_random_generation,
}

module _ {E : Type 0} (incomings : List (Result (Incoming Msg) E)) where
  -- The message is one of those that the stream yields.
  abbrev pub IsSent : Incoming Msg → Type 0
  IsSent m = (k : ℕ) × (get_elem? incomings k ≡ some (ok m))

  module _ (i : PartyIndex) (n : ℕ) where
    abbrev pub Store1 : RoundInput CommitMsg → Type 0
    Store1 = IsRoundStore IsSent round1 i n (broadcast true)

    abbrev pub Store2 : RoundInput DecommitMsg → Type 0
    Store2 = IsRoundStore IsSent round2 i n (broadcast false)

    abbrev pub AtRound2 : RoundsRouter protocol → List (Result (Incoming Msg) E) → Type 0
    AtRound2 router items =
        HoldsAt protocol IsSent round2 Store2 router × AllSent protocol IsSent items

    abbrev pub IsReady : RoundsRouter protocol → List (Result (Incoming Msg) E) → Type 0
    IsReady router items =
        HoldsAt protocol IsSent round1 Store1 router
        × HoldsAt protocol IsSent round2 Store2 router
        × AllSent protocol IsSent items

pub apart : round_number round1 ≢ round_number round2
apart e = omega (arith, e)

module _ (E : Type 0) (K : Sink Msg E) where
  pub send-Keeps :
      (F : RoundsRouter protocol → List (Result (Incoming Msg) E) → Type 0) (mpc : Party E K)
      (msg : Outgoing Msg)
      → F mpc.router mpc.incomings
      → F (send protocol E K mpc msg).0.router (send protocol E K mpc msg).0.incomings
  send-Keeps F mpc msg h = let (same, same') = send-kept protocol E K mpc msg in rw (same, same') h

module _ (E : Type 0) (K : Sink Msg E) (incomings : List (Result (Incoming Msg) E))
    (outgoings : K.State) where
  abbrev pub start : Party E K
  start = connected_halves protocol E K incomings outgoings

module _ (E : Type 0) (K : Sink Msg E) (incomings : List (Result (Incoming Msg) E))
    (outgoings : K.State) (i : PartyIndex) (n : ℕ) where
  -- The party with both rounds registered.
  abbrev registered : RoundInput CommitMsg → RoundInput DecommitMsg → Party E K
  registered s1 s2 = record {
    router = record {
      rounds =
          (0, some (record { kind = round1; round = new (protocol.store round1) s1 }))
          ∷ (1, some (record { kind = round2; round = new (protocol.store round2) s2 }))
          ∷ [];
    };
    halves = record { incomings = incomings; outgoings = outgoings };
  }

  define_rounds_ok :
      (s1 : RoundInput CommitMsg) (s2 : RoundInput DecommitMsg)
      → SimpleStore.new i n (broadcast true) ≡ some s1
      → SimpleStore.new i n (broadcast false) ≡ some s2
      → define_rounds E K (start E K incomings outgoings) i n ≡ some (registered s1 s2)
  unfolding define_rounds Party.add_round add_round lookup insert empty connected_halves
  define_rounds_ok s1 s2 e1 e2 = rw (e1, define_rounds) (rw (e2) refl)

  define_rounds-none :
      (s1 : RoundInput CommitMsg)
      → SimpleStore.new i n (broadcast true) ≡ some s1
      → SimpleStore.new {M = DecommitMsg} i n (broadcast false) ≡ none
      → define_rounds E K (start E K incomings outgoings) i n ≡ none
  unfolding define_rounds Party.add_round add_round lookup insert empty connected_halves
  define_rounds-none s1 e1 e2 = rw (e1, define_rounds) (rw (e2) refl)

  registered-IsReady :
      (s1 : RoundInput CommitMsg) (s2 : RoundInput DecommitMsg)
      → n < u16_mod
      → SimpleStore.new i n (broadcast true) ≡ some s1
      → SimpleStore.new i n (broadcast false) ≡ some s2
      → IsReady incomings i n (registered s1 s2).router incomings
  unfolding lookup
  registered-IsReady s1 s2 fits e1 e2 =
      let fed1 = new-IsFed i n (broadcast true) (OfRound (IsSent incomings) round1) s1 fits e1 in
      let fed2 = new-IsFed i n (broadcast false) (OfRound (IsSent incomings) round2) s2 fits e2 in
      (
        (
          new (protocol.store round1) s1,
          refl,
          new-Holds protocol (IsSent incomings) round1 (Store1 incomings i n) s1 fed1,
        ),
        (
          new (protocol.store round2) s2,
          refl,
          new-Holds protocol (IsSent incomings) round2 (Store2 incomings i n) s2 fed2,
        ),
        λ k m h. (k, h),
      )

  pub define_rounds-IsReady :
      (mpc : Party E K)
      → n < u16_mod
      → define_rounds E K (start E K incomings outgoings) i n ≡ some mpc
      → IsReady incomings i n mpc.router mpc.incomings × (mpc.outgoings ≡ outgoings)
  unfolding define_rounds
  define_rounds-IsReady mpc fits e =
      elim (Option-cases (SimpleStore.new {M = CommitMsg} i n (broadcast true))) [
        | inl e1 ↦ ground (arith, rw (e1, define_rounds) at e)
        | inr (s1, e1) ↦
            elim (Option-cases (SimpleStore.new {M = DecommitMsg} i n (broadcast false))) [
              | inl e2 ↦ ground (arith, sym (define_rounds-none s1 e1 e2) ∙ e)
              | inr (s2, e2) ↦
                  let same : registered s1 s2 ≡ mpc =
                    ground (arith, sym (define_rounds_ok s1 s2 e1 e2) ∙ e) in
                  subst
                    (λ x. IsReady incomings i n x.router x.incomings × (x.outgoings ≡ outgoings))
                    same (registered-IsReady s1 s2 fits e1 e2, refl)
            ]
      ]

  abbrev IsInterrupted : Result Bytes (ErrorM E K) → Type 0
  IsInterrupted (ok _) = ⊥
  IsInterrupted (err (round1_send _)) = Unit {0}
  IsInterrupted (err (round1_receive _)) = Unit {0}
  IsInterrupted (err (round2_send _)) = Unit {0}
  IsInterrupted (err (round2_receive _)) = Unit {0}
  IsInterrupted (err (parties_opened_randomness_doesnt_match_commitment _)) = ⊥

  module _ (digest : Bytes → Bytes) (local : Bytes) where
    -- Either sending or receiving failed, or both rounds were completed and the openings checked.
    abbrev IsVerified : Result Bytes (ErrorM E K) → Type 0
    IsVerified result =
        (s1 : RoundInput CommitMsg) × (s2 : RoundInput DecommitMsg) × (r1 : RoundMsgs CommitMsg)
        × (r2 : RoundMsgs DecommitMsg) × Store1 incomings i n s1
        × Store2 incomings i n s2
        × (output s1 ≡ ok r1)
        × (output s2 ≡ ok r2)
        × (result ≡ verify digest r1 r2 local)

    abbrev IsSettled : Result Bytes (ErrorM E K) → Type 0
    IsSettled result = IsInterrupted result ⊎ IsVerified result

    after_round2-IsSettled :
        (s1 : RoundInput CommitMsg) (r1 : RoundMsgs CommitMsg) (x : Received E K DecommitMsg)
        → Store1 incomings i n s1
        → output s1 ≡ ok r1
        → ((o : RoundMsgs DecommitMsg)
            → x.1 ≡ ok o
            → FromStore protocol (IsSent incomings) round2 (Store2 incomings i n) o)
        → IsSettled (after_round2 E K digest local r1 x).1
    unfolding after_round2
    after_round2-IsSettled s1 r1 (mpc, err e) fed1 e1 from = inl tt
    after_round2-IsSettled s1 r1 (mpc, ok r2) fed1 e1 from =
        let (s2, fed2, e2) = from r2 refl in inr (s1, s2, r1, r2, fed1, fed2, e1, e2, refl)

    after_decommit-IsSettled :
        (s1 : RoundInput CommitMsg) (r1 : RoundMsgs CommitMsg) (x : Party E K × Result (Unit {0}) E)
        → Store1 incomings i n s1
        → output s1 ≡ ok r1
        → AtRound2 incomings i n x.0.router x.0.incomings
        → IsSettled (after_decommit E K digest local r1 x).1
    unfolding after_decommit
    after_decommit-IsSettled s1 r1 (mpc, err e) fed1 e1 ready = inl tt
    after_decommit-IsSettled s1 r1 (mpc, ok _) fed1 e1 (holds2, sent) =
        after_round2-IsSettled s1 r1 (complete protocol E K mpc round2) fed1 e1 (λ o e.
          complete-FromStore protocol (IsSent incomings) E K protocol-IsLawful round2
            (Store2 incomings i n) (round-IsKept (IsSent incomings) round2 i n (broadcast false))
            mpc o sent holds2 e)

    after_round1-IsSettled :
        (x : Received E K CommitMsg)
        → ((o : RoundMsgs CommitMsg)
            → x.1 ≡ ok o
            → FromStore protocol (IsSent incomings) round1 (Store1 incomings i n) o)
        → AtRound2 incomings i n x.0.router x.0.incomings
        → IsSettled (after_round1 E K digest local x).1
    unfolding after_round1
    after_round1-IsSettled (mpc, err e) from ready = inl tt
    after_round1-IsSettled (mpc, ok r1) from ready =
        let (s1, fed1, e1) = from r1 refl in
        after_decommit-IsSettled s1 r1 (send_to_all protocol E K mpc _) fed1 e1
          (send-Keeps E K (AtRound2 incomings i n) mpc _ ready)

    after_commit-IsSettled :
        (x : Party E K × Result (Unit {0}) E)
        → IsReady incomings i n x.0.router x.0.incomings
        → IsSettled (after_commit E K digest local x).1
    unfolding after_commit
    after_commit-IsSettled (mpc, err e) ready = inl tt
    after_commit-IsSettled (mpc, ok _) (holds1, holds2, sent) =
        after_round1-IsSettled (complete protocol E K mpc round1)
          (λ o e.
            complete-FromStore protocol (IsSent incomings) E K protocol-IsLawful round1
              (Store1 incomings i n) (round-IsKept (IsSent incomings) round1 i n (broadcast true))
              mpc o sent holds1 e)
          (complete_other protocol (IsSent incomings) E K protocol-IsLawful round1 round2
            (Store2 incomings i n) (round-IsKept (IsSent incomings) round2 i n (broadcast false))
            apart mpc sent holds2)

    pub run-IsSettled :
        (mpc : Party E K) (result : Result Bytes (ErrorM E K))
        → n < u16_mod
        → protocol_of_random_generation E K digest (start E K incomings outgoings) i n local
          ≡ some (mpc, result)
        → IsSettled result
    unfolding protocol_of_random_generation execute
    run-IsSettled mpc result fits e =
        elim (Option-cases (define_rounds E K (start E K incomings outgoings) i n)) [
          | inl none_yet ↦ ground (arith, rw (none_yet, protocol_of_random_generation) at e)
          | inr (mpc', defined) ↦
              let same : (execute E K digest mpc' local).1 ≡ result =
                ground (arith, rw (defined, protocol_of_random_generation) at e) in
              subst IsSettled same (
                after_commit-IsSettled (reliably_broadcast protocol E K mpc' _) (
                  send-Keeps E K (IsReady incomings i n) mpc' _
                    (define_rounds-IsReady mpc' fits defined).0))
        ]
