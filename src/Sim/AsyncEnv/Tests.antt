-- ===== src/Sim/AsyncEnv/Tests.antt =====
-- The asynchronous network of round-based/src/sim/async_env.rs over a channel that keeps its values in
-- a list.
use round_based.Prelude.{
  ℕ, ◌+◌, ◌≡◌, refl, Option, none, some, List, [], ◌∷◌, ◌++◌, map, Result, ok, arith, get_elem?,
  get_elem?-ge, length,
}
use round_based.Delivery.{Incoming, Outgoing, PartyIndex, outgoing_p2p, outgoing_all_parties}
use round_based.StateMachine.SharedState.{Poll, ready, pending}
use round_based.Sim.Queue.{new}
use round_based.Sim.AsyncEnv.{
  Channel, Network, MockedIncoming, with_capacity, connect_all, connect_new_party, poll_next,
  start_send,
}
use round_based.Sim.AsyncEnv.Contract.{IsBroadcast}
use round_based.Sim.AsyncEnv.Receive.{addressed, unread, IsInStep, Yields, poll_next-Yields}
use round_based.Sim.AsyncEnv.Send.{send_all, stamp_all, run-unread, run-ids}
use round_based.Sim.AsyncEnv.Queued.{erase, without_own, view, queue_all}
use round_based.Sim.AsyncEnv.Drain.{poll_all, poll_all-queue_all}

module _ (T : Type 0) where
  record Log : Type 0 where
    values : List T
    room : ℕ

  abbrev polled : ℕ → Option T → ℕ × Poll (Option (Result T ⊥))
  polled r none = (r, pending)
  polled r (some x) = (r + 1, ready (some (ok x)))

  abbrev listed : Channel T
  listed = record {
    State = Log;
    Receiver = ℕ;
    RecvError = ⊥;
    channel = λ k. record { values = []; room = k };
    subscribe = λ s. (s, length s.values);
    send = λ s x. (record { values = s.values ++ x ∷ []; room = s.room }, ok tt);
    poll_next = λ s r. polled r (get_elem? s.values r);
  }

  abbrev listed-IsBroadcast : IsBroadcast listed
  listed-IsBroadcast = record {
    sent = λ s. s.values;
    capacity = λ s. s.room;
    position = λ r. r;
    HasReceiver = λ _. Unit {0};
    channel_sent = λ _. refl;
    channel_capacity = λ _. refl;
    subscribe_sent = λ _. refl;
    subscribe_capacity = λ _. refl;
    subscribe_position = λ _. refl;
    subscribe_received = λ _. tt;
    send_sent = λ _ _ _. refl;
    send_ok = λ _ _ _. refl;
    send_capacity = λ _ _. refl;
    send_received = λ _ _ _. tt;
    next_sent = λ s r x fits e. rw e (refl, refl);
    next_pending = λ s r all. rw (get_elem?-ge s.values r all) (refl, refl);
  }

abbrev C : Channel (Outgoing (Incoming ℕ))
C = listed (Outgoing (Incoming ℕ))

abbrev law : IsBroadcast C
law = listed-IsBroadcast (Outgoing (Incoming ℕ))

-- Party 1 writes to party 0 and to all, and party 0 to party 1.
abbrev sends : List (PartyIndex × Outgoing ℕ)
sends = (1, outgoing_p2p 0 71) ∷ (0, outgoing_p2p 1 72) ∷ (1, outgoing_all_parties 73) ∷ []

abbrev capacity : ℕ
capacity = 500

abbrev network : Network C
network = send_all C (connect_all C 2 (with_capacity C capacity)).0 sends

abbrev party_0 : MockedIncoming C
party_0 = record { local_party_idx = 0; receiver = 0 }

abbrev local_0 : PartyIndex
local_0 = 0

run-unread_example :
    (local_0 ≡ local_0)
    × IsInStep C law network.channel party_0
    × (unread C law network.channel party_0 ≡ addressed 0 (stamp_all 0 sends))
unfolding connect_all connect_new_party with_capacity
run-unread_example =
    run-unread C law capacity 2 sends 0
      (record { incomings = party_0; outgoings = record { local_party_idx = 0 } }) (omega arith)
      (omega arith) (omega arith) refl

poll_next-Yields_example :
    Yields C law network.channel party_0 (poll_next C 4 network.channel party_0)
unfolding send_all start_send connect_all with_capacity
poll_next-Yields_example =
    poll_next-Yields C law 4 network.channel party_0 (omega arith) run-unread_example.1

poll_all-queue_all_example :
    view 0 (queue_all (new ℕ 2) sends).queue
    ≡ some (map erase (without_own 0 (poll_all C 4 4 network.channel party_0)))
unfolding connect_all connect_new_party with_capacity
poll_all-queue_all_example =
    poll_all-queue_all C law capacity 2 sends 0
      (record { incomings = party_0; outgoings = record { local_party_idx = 0 } }) 4 4 (omega arith)
      (omega arith) (omega arith) (omega arith) (omega arith) refl

run-ids_example :
    (length (law.sent network.channel) ≡ length sends)
    × (m : Outgoing (Incoming ℕ)) × (get_elem? (law.sent network.channel) 2 ≡ some m)
    × (m.msg.id ≡ 2)
run-ids_example = run-ids C law capacity 2 sends 2 (omega arith) (omega arith) (omega arith)
