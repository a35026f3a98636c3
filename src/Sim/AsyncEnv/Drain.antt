-- ===== src/Sim/AsyncEnv/Drain.antt =====
-- A party of the asynchronous network of round-based/src/sim/async_env.rs that reads all its messages,
-- against the queues of round-based/src/sim/mod.rs.
use round_based.Prelude.{
  ℕ, zero, suc, ◌+◌, ◌≤◌, ◌<◌, ◌≡◌, sym, ap, ◌∙◌, inl, inr, Bool-cases, Option, none, some, List,
  [], ◌∷◌, map, Result, ok, err, arith, get_elem?, length, u16_mod,
}
use round_based.Delivery.{Incoming, Outgoing, PartyIndex}
use round_based.StateMachine.SharedState.{Poll, ready, pending}
use round_based.Sim.Queue.{new}
use round_based.Sim.AsyncEnv.{
  Channel, MockedIncoming, MockedDelivery, DeliveryError, poll_next, connect_all, with_capacity,
}
use round_based.Sim.AsyncEnv.Contract.{IsBroadcast}
use round_based.Sim.AsyncEnv.Receive.{addressed, is_for, unread, IsInStep, poll_next-Yields}
use round_based.Sim.AsyncEnv.Send.{send_all, stamp_all, length-stamp_all, run-sent, run-unread}
use round_based.Sim.AsyncEnv.Queued.{erase, without_own, view, queue_all, addressed-queue_all}

module _ {M : Type 0} where
  length-addressed :
      (j : PartyIndex) (ms : List (Outgoing (Incoming M))) → length (addressed j ms) ≤ length ms
  unfolding addressed
  length-addressed j [] = omega arith
  length-addressed j (m ∷ ms) = elim (Bool-cases (is_for j m.recipient)) [
    | inl mine ↦ rw mine (omega (arith, length-addressed j ms))
    | inr other ↦ rw other (omega (arith, length-addressed j ms))
  ]

  module _ (C : Channel (Outgoing (Incoming M))) where
    abbrev pub Polled : Type 0
    Polled = Option (MockedIncoming C × Poll (Option (Result (Incoming M) (DeliveryError C))))

    abbrev pub next_of : (MockedIncoming C → List (Incoming M)) → Polled → List (Incoming M)
    next_of rest none = []
    next_of rest (some (incoming, pending)) = []
    next_of rest (some (incoming, ready none)) = []
    next_of rest (some (incoming, ready (some (err e)))) = []
    next_of rest (some (incoming, ready (some (ok m)))) = m ∷ rest incoming

    -- What at most `k` calls of `poll_next` yield before one is pending or yields an error.
    unfoldable pub poll_all : ℕ → ℕ → C.State → MockedIncoming C → List (Incoming M)
    poll_all zero fuel s incoming = []
    poll_all (suc k) fuel s incoming = next_of (poll_all k fuel s) (poll_next C fuel s incoming)

  module _ (C : Channel (Outgoing (Incoming M))) (law : IsBroadcast C) where
    poll_all-unread :
        (k fuel : ℕ) (s : C.State) (incoming : MockedIncoming C)
        → length (unread C law s incoming) < k
        → length (law.sent s) < law.position incoming.receiver + fuel
        → IsInStep C law s incoming
        → poll_all C k fuel s incoming ≡ unread C law s incoming
    unfolding poll_all
    poll_all-unread zero fuel s incoming few enough in_step = absurd (omega arith)
    poll_all-unread (suc k) fuel s incoming few enough in_step =
        let (incoming', _, later, in_step', answer) =
          poll_next-Yields C law fuel s incoming enough in_step in
        elim answer [
          | inl (p, none_unread, _) ↦ ap (next_of C (poll_all C k fuel s)) p ∙ sym none_unread
          | inr (m, p, first) ↦
              ap (next_of C (poll_all C k fuel s)) p
              ∙ ap (◌∷◌ m) (
                  poll_all-unread k fuel s incoming' (omega (arith, ap length first, few))
                    (omega (arith, later, enough)) in_step')
              ∙ sym first
        ]

    -- Let the same messages be sent, in the same order, through the queues of a simulation of `n`
    -- parties and through a fresh asynchronous network that `n` parties are connected to, and no
    -- more of them than the capacity of its channel. Let party `j` then poll its stream until it is
    -- pending, with bounds above the number of messages. What it has read is what its queue in the
    -- simulation holds, in the same order and with the same senders and types, but for the ids, and
    -- but for the party's own broadcasts, which only the network delivers back to it.
    pub poll_all-queue_all :
        (capacity n : ℕ) (sends : List (PartyIndex × Outgoing M)) (j : PartyIndex)
        (delivery : MockedDelivery C) (k fuel : ℕ)
        → j < n
        → n ≤ u16_mod
        → length sends ≤ capacity
        → length sends < k
        → length sends < fuel
        → get_elem? (connect_all C n (with_capacity C capacity)).1 j ≡ some delivery
        → let s = (send_all C (connect_all C n (with_capacity C capacity)).0 sends).channel in
          view j (queue_all (new M n) sends).queue
          ≡ some (map erase (without_own j (poll_all C k fuel s delivery.incomings)))
    poll_all-queue_all capacity n sends j delivery k fuel near fits room calls values at =
        let s = (send_all C (connect_all C n (with_capacity C capacity)).0 sends).channel in
        let (_, in_step, left) =
          run-unread C law capacity n sends j delivery (omega arith) fits room at in
        let few : length (unread C law s delivery.incomings) < k = omega (
          arith,
          ap length left,
          length-addressed j (stamp_all 0 sends),
          length-stamp_all 0 sends,
          calls,
        ) in
        let all =
          poll_all-unread k fuel s delivery.incomings few
            (omega (
              arith,
              values,
              ap length (run-sent C law capacity n sends (omega arith)),
              length-stamp_all 0 sends,
            ))
            in_step in
        addressed-queue_all n sends j near
        ∙ ap (λ l. some (map erase (without_own j l))) (sym (all ∙ left))
