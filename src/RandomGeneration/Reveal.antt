-- ===== src/RandomGeneration/Reveal.antt =====
-- The order of what a party sends in the protocol of examples/random-generation-protocol/src/lib.rs.
use round_based.Prelude.{
  ℕ, ◌<◌, ◌≡◌, ◌≢◌, ◌⊎◌, refl, ap, ◌∙◌, subst, inl, inr, true, some, List, [], ◌∷◌, ◌++◌, arith,
  Result, ok, err, Option-cases, u16_mod,
}
use round_based.Delivery.{
  Incoming, Outgoing, PartyIndex, MsgId, broadcast, outgoing_all_parties,
  outgoing_reliable_broadcast,
}
use round_based.Round.SimpleStore.{RoundInput, RoundMsgs, output}
use round_based.Round.SimpleStore.Fed.{output-heard}
use round_based.Mpc.Party.{Sink, complete, send_to_all, reliably_broadcast}
use round_based.Mpc.Party.Sending.{complete-kept, logged, send-logged}
use round_based.Mpc.Party.Held.{FromStore}
use round_based.Mpc.Party.Origin.{complete-FromStore}
use round_based.RandomGeneration.Lawful.{protocol-IsLawful, round-IsKept}
use round_based.RandomGeneration.Run.{
  IsSent, Store1, IsReady, start, define_rounds-IsReady, send-Keeps,
}
use round_based.RandomGeneration.Received.{commit_from, commit-IsSent}
use round_based.RandomGeneration.{
  Bytes, Msg, CommitMsg, DecommitMsg, commit_msg, decommit_msg, protocol, round1, round2, Party,
  ErrorM, Received, define_rounds, execute, after_commit, after_round1, after_decommit,
  after_round2, protocol_of_random_generation,
}

module _ (E : Type 0) (K : Sink Msg E) (digest : Bytes → Bytes)
    (incomings : List (Result (Incoming Msg) E)) (i : PartyIndex) (n : ℕ) (local : Bytes) where
  abbrev Log : Sink Msg E
  Log = logged protocol E K

  abbrev pub own_commit : Outgoing Msg
  own_commit = outgoing_reliable_broadcast (commit_msg (record { commitment = digest local }))

  abbrev pub own_decommit : Outgoing Msg
  own_decommit = outgoing_all_parties (decommit_msg (record { randomness = local }))

  -- A reliably broadcast commitment of every other party was received.
  abbrev pub AllCommitted : Type 0
  AllCommitted =
      (j : ℕ)
      → j < n
      → j ≢ i
      → (id : MsgId) × (commitment : Bytes) × IsSent incomings (commit_from j id commitment)

  abbrev pub IsOrdered : List (Outgoing Msg) → Type 0
  IsOrdered sent =
      (sent ≡ own_commit ∷ []) ⊎ ((sent ≡ own_commit ∷ own_decommit ∷ []) × AllCommitted)

  all_committed :
      (s1 : RoundInput CommitMsg) (r1 : RoundMsgs CommitMsg)
      → Store1 incomings i n s1
      → output s1 ≡ ok r1
      → AllCommitted
  all_committed s1 r1 fed e j near other =
      let ((id, c), held) =
        output-heard s1 r1 j fed.valid e (ground (arith, fed.parties))
          (ground (arith, fed.own_index)) in
      (id, c.commitment, commit-IsSent incomings i n s1 j id c fed held)

  after_round2-sent :
      (r1 : RoundMsgs CommitMsg) (x : Received E Log DecommitMsg)
      → (after_round2 E Log digest local r1 x).0.outgoings ≡ x.0.outgoings
  unfolding after_round2
  after_round2-sent r1 (mpc, err e) = refl
  after_round2-sent r1 (mpc, ok r2) = refl

  after_decommit-sent :
      (r1 : RoundMsgs CommitMsg) (x : Party E Log × Result (Unit {0}) E)
      → (after_decommit E Log digest local r1 x).0.outgoings ≡ x.0.outgoings
  unfolding after_decommit
  after_decommit-sent r1 (mpc, err e) = refl
  after_decommit-sent r1 (mpc, ok _) =
      after_round2-sent r1 (complete protocol E Log mpc round2)
      ∙ complete-kept protocol E Log mpc round2

  after_round1-IsOrdered :
      (x : Received E Log CommitMsg)
      → ((o : RoundMsgs CommitMsg)
          → x.1 ≡ ok o
          → FromStore protocol (IsSent incomings) round1 (Store1 incomings i n) o)
      → x.0.outgoings.1 ≡ own_commit ∷ []
      → IsOrdered (after_round1 E Log digest local x).0.outgoings.1
  unfolding after_round1
  after_round1-IsOrdered (mpc, err e) from sent = inl sent
  after_round1-IsOrdered (mpc, ok r1) from sent =
      let (s1, fed, e) = from r1 refl in
      inr (
        ap (λ s. s.1)
              (after_decommit-sent r1
                (send_to_all protocol E Log mpc (decommit_msg (record { randomness = local }))))
            ∙ send-logged protocol E K mpc own_decommit
            ∙ ap (λ l. l ++ own_decommit ∷ []) sent,
        all_committed s1 r1 fed e,
      )

  after_commit-IsOrdered :
      (x : Party E Log × Result (Unit {0}) E)
      → IsReady incomings i n x.0.router x.0.incomings
      → x.0.outgoings.1 ≡ own_commit ∷ []
      → IsOrdered (after_commit E Log digest local x).0.outgoings.1
  unfolding after_commit
  after_commit-IsOrdered (mpc, err e) ready sent = inl sent
  after_commit-IsOrdered (mpc, ok _) (holds1, _, all) sent =
      after_round1-IsOrdered (complete protocol E Log mpc round1)
        (λ o e.
          complete-FromStore protocol (IsSent incomings) E Log protocol-IsLawful round1
            (Store1 incomings i n) (round-IsKept (IsSent incomings) round1 i n (broadcast true)) mpc
            o all holds1 e)
        (ap (λ s. s.1) (complete-kept protocol E Log mpc round1) ∙ sent)

  -- In every run, however it ends, the party sends its commitment first, and it sends its opening
  -- only after it has received a reliably broadcast commitment from every other party; it sends
  -- nothing else.
  pub run-IsOrdered :
      (sink : K.State) (mpc : Party E Log) (result : Result Bytes (ErrorM E Log))
      → n < u16_mod
      → protocol_of_random_generation E Log digest (start E Log incomings (sink, [])) i n local
        ≡ some (mpc, result)
      → IsOrdered mpc.outgoings.1
  unfolding protocol_of_random_generation execute
  run-IsOrdered sink mpc result fits e =
      elim (Option-cases (define_rounds E Log (start E Log incomings (sink, [])) i n)) [
        | inl none_yet ↦ ground (arith, rw (none_yet, protocol_of_random_generation) at e)
        | inr (mpc', defined) ↦
            let same : (execute E Log digest mpc' local).0 ≡ mpc =
              ground (arith, rw (defined, protocol_of_random_generation) at e) in
            let (ready, fresh) =
              define_rounds-IsReady E Log incomings (sink, []) i n mpc' fits defined in
            subst (λ x. IsOrdered x.outgoings.1) same
              (after_commit-IsOrdered
                (reliably_broadcast protocol E Log mpc'
                  (commit_msg (record { commitment = digest local })))
                (send-Keeps E Log (IsReady incomings i n) mpc' own_commit ready)
                (send-logged protocol E K mpc' own_commit ∙ ap (λ s. s.1 ++ own_commit ∷ []) fresh))
      ]
