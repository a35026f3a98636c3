-- ===== src/StateMachine/Tests.antt =====
-- The state machine of round-based/src/state_machine at concrete inputs: a protocol that sends one
-- number, waits for one message, and puts out the number in it.
use round_based.Prelude.{ℕ, ◌≡◌, refl, true, false, Option, none, some, Result, ok, err}
use round_based.Delivery.{Incoming, Outgoing, all_parties, broadcast}
use round_based.StateMachine.SharedState.{
  SharedState, Poll, ready, pending, new, can_schedule, executor_takes_outgoing_msg,
  executor_received_msg, executor_reads_and_resets_yielded_flag, protocol_needs_one_more_msg,
}
use round_based.StateMachine.Delivery.{poll_next, poll_ready, start_send, poll_flush, not_ready}
use round_based.StateMachine.SharedState.Invariant.{
  IsValid, start, by_protocol, by_executor, starts_send, polls_flush, takes_outgoing_msg,
  polls_next, stop, more, Reachable-IsValid, new-IsValid,
}
use round_based.StateMachine.SharedState.Exchange.{send_exchange}
use round_based.StateMachine.Machine.{
  Future, StateMachineImpl, needs_one_more_message, output, wrap_protocol, proceed, received_msg,
  after_poll, after_pending,
}
use round_based.StateMachine.Machine.Proceed.{IsConfined, Reports, proceed-Reports}

abbrev hello : Outgoing ℕ
hello = record { recipient = all_parties false; msg = 5 }

abbrev reply : Incoming ℕ
reply = record { id = 0; sender = 1; msg_type = broadcast false; msg = 6 }

abbrev idle : SharedState ℕ
idle = new ℕ

-- The protocol after it has put the message into the sink and flushes it.
abbrev flushing : SharedState ℕ
flushing = (poll_flush (start_send idle hello).0).0

Reachable-IsValid_example : IsValid (executor_takes_outgoing_msg flushing).0
Reachable-IsValid_example = Reachable-IsValid (
    by_executor (by_protocol (by_protocol start (starts_send hello)) polls_flush)
      takes_outgoing_msg)

idle_schedules : can_schedule idle ≡ true
unfolding new can_schedule
idle_schedules = refl

idle_empty : idle.outgoing_msg ≡ none
unfolding new
idle_empty = refl

send_exchange_example :
    ((start_send idle hello).1 ≡ ok tt)
    × (start_send (start_send idle hello).0 hello ≡ ((start_send idle hello).0, err not_ready))
    × ((executor_takes_outgoing_msg (start_send idle hello).0).1 ≡ none)
    × ((poll_flush (start_send idle hello).0).1 ≡ pending)
    × (executor_takes_outgoing_msg flushing ≡ (idle, some hello))
    × (poll_flush idle ≡ (idle, ready (ok tt)))
    × (poll_ready idle ≡ (idle, ready (ok tt)))
send_exchange_example = send_exchange idle hello hello idle_schedules idle_empty

-- A protocol that waits for one message and puts out the number in it.

abbrev result_of : {E : Type 0} → Poll (Option (Result (Incoming ℕ) E)) → Poll ℕ
result_of (ready (some (ok m))) = ready m.msg
result_of _ = pending

abbrev echo : Future ℕ ℕ
echo = record { State = Unit {0}; poll = λ f s. let (s', p) = poll_next s in (f, s', result_of p) }

echo-IsConfined : IsConfined echo
echo-IsConfined = record { runs = λ _ s. more stop polls_next }

abbrev asking : StateMachineImpl echo
asking = wrap_protocol echo tt

abbrev replied : StateMachineImpl echo
replied = (received_msg echo (proceed echo asking).0 reply).0

asking-IsValid : IsValid asking.shared_state
unfolding wrap_protocol
asking-IsValid = new-IsValid

asks : (proceed echo asking).1 ≡ needs_one_more_message
unfolding proceed after_poll after_pending wrap_protocol new can_schedule poll_next
    protocol_needs_one_more_msg executor_takes_outgoing_msg executor_reads_and_resets_yielded_flag
asks = refl

puts_out : (proceed echo replied).1 ≡ output 6
unfolding proceed after_poll after_pending wrap_protocol new can_schedule poll_next
    protocol_needs_one_more_msg executor_takes_outgoing_msg executor_reads_and_resets_yielded_flag
    received_msg executor_received_msg
puts_out = refl

proceed-Reports_example : Reports echo (proceed echo asking).0 (proceed echo asking).1
proceed-Reports_example = proceed-Reports echo echo-IsConfined asking asking-IsValid
