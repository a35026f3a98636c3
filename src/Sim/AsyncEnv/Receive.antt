-- ===== src/Sim/AsyncEnv/Receive.antt =====
-- What `MockedIncoming` of round-based/src/sim/async_env.rs yields.
use round_based.Prelude.{
  ℕ, zero, suc, ◌+◌, ◌≤◌, ◌<◌, ◌≡◌, ◌⊎◌, refl, ◌∙◌, inl, inr, Option, none, some, List, [], ◌∷◌,
  Result, ok, arith, Bool, true, ◌&&◌, not, ◌==◌, ap, get_elem?, length, drop, if◌then◌else◌,
  Bool-cases, Option-cases, get_elem?-lt,
}
use round_based.Delivery.{
  Incoming, Outgoing, PartyIndex, MessageDestination, all_parties, one_party, is_p2p,
}
use round_based.StateMachine.SharedState.{Poll, ready, pending}
use round_based.Sim.AsyncEnv.{
  Channel, MockedIncoming, DeliveryError, is_skipped, is_destination, poll_next,
}
use round_based.Sim.AsyncEnv.Contract.{IsBroadcast}

-- Whether a message is for a party: a broadcast is for everybody, its sender included.
abbrev pub is_for : PartyIndex → MessageDestination → Bool
is_for j (all_parties _) = true
is_for j (one_party d) = d == j

is_for_cases :
    (j : PartyIndex) (d : MessageDestination)
    → is_p2p d && not (is_destination d j) ≡ not (is_for j d)
unfolding is_destination
is_for_cases j (all_parties reliable) = refl
is_for_cases j (one_party d) = refl

module _ {M : Type 0} where
  is_skipped_lem :
      (j : PartyIndex) (m : Outgoing (Incoming M)) → is_skipped j m ≡ not (is_for j m.recipient)
  unfolding is_skipped
  is_skipped_lem j m = is_for_cases j m.recipient

  -- The messages that are addressed to a party, in order.
  unfoldable pub addressed : PartyIndex → List (Outgoing (Incoming M)) → List (Incoming M)
  addressed local [] = []
  addressed local (m ∷ ms) =
      if is_for local m.recipient then m.msg ∷ addressed local ms else addressed local ms

  drop-get :
      (xs : List (Outgoing (Incoming M))) (k : ℕ) (x : Outgoing (Incoming M))
      → get_elem? xs k ≡ some x
      → drop k xs ≡ x ∷ drop (suc k) xs
  drop-get [] k x e = ground arith
  drop-get (y ∷ xs) zero x e = ground arith
  drop-get (y ∷ xs) (suc k) x e = drop-get xs k x e

  drop-ge : (xs : List (Outgoing (Incoming M))) (k : ℕ) → length xs ≤ k → drop k xs ≡ []
  drop-ge [] zero h = refl
  drop-ge [] (suc k) h = refl
  drop-ge (x ∷ xs) zero h = absurd (omega arith)
  drop-ge (x ∷ xs) (suc k) h = drop-ge xs k (omega arith)

  get_elem?-none :
      (xs : List (Outgoing (Incoming M))) (k : ℕ) → get_elem? xs k ≡ none → length xs ≤ k
  get_elem?-none [] k e = omega arith
  get_elem?-none (x ∷ xs) zero e = ground arith
  get_elem?-none (x ∷ xs) (suc k) e = omega (arith, get_elem?-none xs k e)

  module _ (C : Channel (Outgoing (Incoming M))) (law : IsBroadcast C) where
    abbrev Polled : Type 0
    Polled = Option (MockedIncoming C × Poll (Option (Result (Incoming M) (DeliveryError C))))

    -- What is still to be read.
    abbrev pub unread : C.State → MockedIncoming C → List (Incoming M)
    unread s incoming =
        addressed incoming.local_party_idx (drop (law.position incoming.receiver) (law.sent s))

    -- A receiver does not overtake the senders, and has not fallen too far behind.
    abbrev pub IsInStep : C.State → MockedIncoming C → Type 0
    IsInStep s incoming =
        (law.position incoming.receiver ≤ length (law.sent s))
        × (length (law.sent s) ≤ law.position incoming.receiver + law.capacity s)

    -- The next message that is addressed to the party, or none yet.
    abbrev pub Yields : C.State → MockedIncoming C → Polled → Type 0
    Yields s incoming polled =
        (incoming' : MockedIncoming C) × (incoming'.local_party_idx ≡ incoming.local_party_idx)
        × (law.position incoming.receiver ≤ law.position incoming'.receiver)
        × IsInStep s incoming'
        × (((polled ≡ some (incoming', pending))
              × (unread s incoming ≡ [])
              × (unread s incoming' ≡ []))
            ⊎ ((m : Incoming M) × (polled ≡ some (incoming', ready (some (ok m))))
                × (unread s incoming ≡ m ∷ unread s incoming')))

    abbrev after_poll : C.State → MockedIncoming C → MockedIncoming C
    after_poll s incoming = record {
      local_party_idx = incoming.local_party_idx;
      receiver = (C.poll_next s incoming.receiver).0;
    }

    nothing_left :
        (s : C.State) (incoming : MockedIncoming C)
        → length (law.sent s) ≤ law.position incoming.receiver
        → unread s incoming ≡ []
    unfolding addressed
    nothing_left s incoming h = rw (drop-ge (law.sent s) (law.position incoming.receiver) h)

    Yields-pending :
        (fuel : ℕ) (s : C.State) (incoming : MockedIncoming C)
        → IsInStep s incoming
        → length (law.sent s) ≤ law.position incoming.receiver
        → Yields s incoming (poll_next C (suc fuel) s incoming)
    unfolding poll_next
    Yields-pending fuel s incoming (near, fits) all =
        let (polled, stays) = law.next_pending s incoming.receiver all in
        (
          after_poll s incoming,
          refl,
          omega (arith, stays),
          (omega (arith, stays, near), omega (arith, stays, fits)),
          inl (
            rw (polled, poll_next),
            nothing_left s incoming all,
            nothing_left s (after_poll s incoming) (omega (arith, stays, all)),
          ),
        )

    unread_step :
        (s : C.State) (incoming : MockedIncoming C) (x : Outgoing (Incoming M))
        → get_elem? (law.sent s) (law.position incoming.receiver) ≡ some x
        → law.position (C.poll_next s incoming.receiver).0 ≡ law.position incoming.receiver + 1
        → unread s incoming ≡ (
            if is_for incoming.local_party_idx x.recipient
            then x.msg ∷ unread s (after_poll s incoming)
            else unread s (after_poll s incoming))
    unfolding addressed
    unread_step s incoming x e moved =
        let next : law.position (C.poll_next s incoming.receiver).0
            ≡ suc (law.position incoming.receiver) =
          omega (arith, moved) in
        rw (drop-get (law.sent s) (law.position incoming.receiver) x e, next)

    -- Let a receiver be in step with the channel, and let the fuel exceed the number of values that
    -- it has not read. Then polling it skips what is addressed to others and yields the next message
    -- for the party, in the order of the sends, or is pending when there is none; the receiver stays
    -- in step, and what remains to be read is what was to be read without that message.
    pub poll_next-Yields :
        (fuel : ℕ) (s : C.State) (incoming : MockedIncoming C)
        → length (law.sent s) < law.position incoming.receiver + fuel
        → IsInStep s incoming
        → Yields s incoming (poll_next C fuel s incoming)
    unfolding poll_next
    poll_next-Yields zero s incoming enough (near, fits) = absurd (omega arith)
    poll_next-Yields (suc fuel) s incoming enough (near, fits) =
        let pos = law.position incoming.receiver in
        elim (Option-cases (get_elem? (law.sent s) pos)) [
          | inl e ↦ Yields-pending fuel s incoming (near, fits) (get_elem?-none (law.sent s) pos e)
          | inr (x, e) ↦
              let (polled, moved) = law.next_sent s incoming.receiver x fits e in
              let step = unread_step s incoming x e moved in
              let inside = get_elem?-lt (law.sent s) pos x e in
              let in_step : IsInStep s (after_poll s incoming) =
                (omega (arith, moved, inside), omega (arith, moved, fits)) in
              let skipped = is_skipped_lem incoming.local_party_idx x in
              elim (Bool-cases (is_for incoming.local_party_idx x.recipient)) [
                | inl mine ↦ (
                  after_poll s incoming,
                  refl,
                  omega (arith, moved),
                  in_step,
                  inr (
                    x.msg,
                    rw (polled, poll_next) (rw (skipped ∙ ap not mine) refl),
                    step ∙ rw mine refl,
                  ),
                )
                | inr skip ↦
                    let again : poll_next C (suc fuel) s incoming
                        ≡ poll_next C fuel s (after_poll s incoming) =
                      rw (polled, poll_next) (rw (skipped ∙ ap not skip) refl) in
                    let step' : unread s incoming ≡ unread s (after_poll s incoming) =
                      step ∙ rw skip refl in
                    let (incoming', same, later, in_step', answer) =
                      poll_next-Yields fuel s (after_poll s incoming) (omega (arith, moved, enough))
                        in_step in
                    (
                      incoming',
                      same,
                      omega (arith, moved, later),
                      in_step',
                      elim answer [
                        | inl (p, none_unread, none_left) ↦
                            inl (again ∙ p, step' ∙ none_unread, none_left)
                        | inr (m, p, rest) ↦ inr (m, again ∙ p, step' ∙ rest)
                      ],
                    )
              ]
        ]
