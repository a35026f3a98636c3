-- ===== src/Sim/Tests.antt =====
-- The simulation of round-based/src/sim/mod.rs at concrete inputs: parties that wait for a message and
-- parties that are done at once.
use mathlib.Core.Option
use round_based.Prelude.{
  ℕ, ◌+◌, ◌≡◌, ◌≢◌, refl, Bool, true, false, List, [], ◌∷◌, ◌++◌, Result, ok, err, get_elem?, arith,
  ◌==◌, if◌then◌else◌,
}
use round_based.Delivery.{Incoming, Outgoing, all_parties, p2p}
use round_based.StateMachine.Machine.{StateMachine, needs_one_more_message, output}
use round_based.Sim.Queue.{MessagesQueue, send_message}
use round_based.Sim.Queue.Fifo.{others, broadcast_copy, send_message-broadcast}
use round_based.Sim.Queue.Ids.{IsOrdered, send_message-IsOrdered}
use round_based.Sim.Run.{
  active, finished, run, run_loop, run_parties, run_party, after_proceed, outputs, out_of_fuel,
  succeeds,
}
use round_based.StateMachine.Machine.{Future, machine}
use round_based.StateMachine.Machine.Proceed.{IsConfined}
use round_based.StateMachine.SharedState.{Poll, ready, pending}
use round_based.StateMachine.SharedState.Invariant.{stop, more, polls_next}
use round_based.StateMachine.Delivery.{poll_next}
use round_based.Sim.Queue.{save_incoming_msg}
use round_based.Sim.Run.{fails}
use round_based.Sim.Run.Accepted.{wrapped, run-wrapped-ne-save_incoming_msg}
use round_based.Prelude.{Option, some}
use round_based.Sim.Run.{Outcome}
use round_based.Sim.Run.Outputs.{Reports, run-Reports}
use round_based.Prelude.{zero, suc, ◌<◌, ◌⊎◌, inl, inr}
use round_based.StateMachine.Machine.{ProceedResult, ExecutionError, error}
use round_based.Sim.Queue
use round_based.Sim.Run.{Party}
use round_based.Sim.Run.Bounded.{IsBounded}
use round_based.Sim.Run.Deadlock.{run_loop-stuck}
use round_based.Sim.Results.{expect_ok, split_results, expect_eq, all_equal, last}

abbrev first_msg : Incoming ℕ
first_msg = record { id = 0; sender = 1; msg_type = p2p; msg = 40 }

abbrev queues : MessagesQueue ℕ
queues = record { queue = (first_msg ∷ []) ∷ [] ∷ [] ∷ []; next_id = 1 }

abbrev to_all : Outgoing ℕ
to_all = record { recipient = all_parties true; msg = 41 }

queues-IsOrdered : IsOrdered queues
queues-IsOrdered = ((omega arith, omega arith, tt), (tt, (tt, tt)))

send_message-broadcast_example :
    let (q', sent) = send_message queues 1 to_all in
    (sent ≡ ok tt)
    × (q'.next_id ≡ 1 + others 1 0 3)
    × ((j : ℕ)
        → get_elem? q'.queue j ≡ (
            if j == 1
            then get_elem? queues.queue j
            else Option.map
                (λ w. w ++ broadcast_copy (1 + others 1 0 j) 1 true 41 ∷ [])
                (get_elem? queues.queue j)))
send_message-broadcast_example = send_message-broadcast queues 1 true 41 (omega arith)

send_message-IsOrdered_example : IsOrdered (send_message queues 1 to_all).0
send_message-IsOrdered_example =
    send_message-IsOrdered queues 1 to_all (omega arith) queues-IsOrdered

-- Parties that put out their number at once, and parties that wait for a message.
abbrev at_once : StateMachine ℕ ℕ
at_once = record { State = ℕ; proceed = λ s. (s, output s); received_msg = λ s m. (s, ok tt) }

abbrev waits : StateMachine ℕ ℕ
waits = record {
  State = ℕ;
  proceed = λ s. (s, needs_one_more_message);
  received_msg = λ s m. (s, ok tt);
}

ends : run at_once 2 1 (active 3 false ∷ active 4 false ∷ []) ≡ succeeds (3 ∷ 4 ∷ [])
unfolding run run_loop run_parties run_party after_proceed outputs
ends = refl

succeeded : (x : Outcome at_once) (os : List ℕ) → x ≡ succeeds os → x ≢ out_of_fuel
succeeded x os h e = ground arith

ends_in_time : run at_once 2 1 (active 3 false ∷ active 4 false ∷ []) ≢ out_of_fuel
ends_in_time = succeeded _ (3 ∷ 4 ∷ []) ends

run-Reports_example : Reports at_once 2 (run at_once 2 1 (active 3 false ∷ active 4 false ∷ []))
run-Reports_example = run-Reports at_once 2 1 (active 3 false ∷ active 4 false ∷ []) refl

run_loop-stuck_example :
    run_loop waits 100 8
      (active 3 true ∷ finished 4 ∷ [])
      (record { queue = [] ∷ [] ∷ []; next_id = 0 })
      1
    ≡ out_of_fuel
run_loop-stuck_example =
    run_loop-stuck waits 100 7 (active 3 true ∷ finished 4 ∷ [])
      (record { queue = [] ∷ [] ∷ []; next_id = 0 }) 1 (refl, refl, tt) (omega arith)

abbrev good : List (Result ℕ ℕ)
good = ok 1 ∷ ok 2 ∷ []

abbrev bad : List (Result ℕ ℕ)
bad = ok 1 ∷ err 7 ∷ ok 2 ∷ err 9 ∷ []

good-expect_ok : expect_ok good ≡ ok (1 ∷ 2 ∷ [])
unfolding expect_ok split_results
good-expect_ok = refl

bad-expect_ok : expect_ok bad ≡ err ((1, 7) ∷ (3, 9) ∷ [])
unfolding expect_ok split_results
bad-expect_ok = refl

abbrev equals : ℕ → ℕ → Bool
equals a b = a == b

equals_sound : (a b : ℕ) → equals a b ≡ true → a ≡ b
equals_sound a b h = ground arith

abbrev sixes : List ℕ
sixes = 6 ∷ 6 ∷ []

same-expect_eq : expect_eq equals sixes ≡ ok 6
unfolding expect_eq all_equal last
same-expect_eq = refl

-- A protocol that waits for one message and puts out the number in it.
abbrev first_of : {E : Type 0} → Poll (Option (Result (Incoming ℕ) E)) → Poll ℕ
first_of (ready (some (ok m))) = ready m.msg
first_of _ = pending

abbrev listens : Future ℕ ℕ
listens = record { State = ℕ; poll = λ f s. let (s', p) = poll_next s in (f, s', first_of p) }

listens-IsConfined : IsConfined listens
listens-IsConfined = record { runs = λ _ s. more stop polls_next }

run-wrapped-ne-save_incoming_msg_example :
    run (machine listens) 5 7 (wrapped listens listens-IsConfined (0 ∷ 1 ∷ []))
    ≢ fails save_incoming_msg
run-wrapped-ne-save_incoming_msg_example =
    run-wrapped-ne-save_incoming_msg listens listens-IsConfined 5 7 (0 ∷ 1 ∷ [])

abbrev down : ℕ → ℕ × ProceedResult ℕ ℕ
down zero = (zero, output 0)
down (suc s) = (s, needs_one_more_message)

down_ends :
    (s : ℕ)
    → ((o : ℕ) × ((down s).1 ≡ output o))
      ⊎ (((down s).0 < s) ⊎ ((e : ExecutionError) × ((down s).1 ≡ error e)))
down_ends zero = inl (0, refl)
down_ends (suc s) = inr (inl (omega arith))

-- Parties that take a message for each step down to 0, and then put out 0.
abbrev counts_down : StateMachine ℕ ℕ
counts_down = record { State = ℕ; proceed = down; received_msg = λ s m. (s, ok tt) }

abbrev counts_down-IsBounded : IsBounded counts_down
counts_down-IsBounded = record { calls = λ s. s; ends = down_ends; receives = λ s m. omega arith }

abbrev two_parties : List (Party counts_down)
two_parties = active 2 false ∷ active 0 false ∷ []
