-- ===== src/PartySim/Tests.antt =====
-- The party of round-based-tests/src/lib.rs at a concrete machine: a protocol that yields once, waits
-- for one message, and puts out the number in it.
use round_based.Prelude.{ℕ, ◌≡◌, refl, arith, Bool, true, false, Option, some, Result, ok}
use round_based.Delivery.{Incoming, broadcast}
use round_based.StateMachine.SharedState.{
  SharedState, Poll, ready, pending, new, can_schedule, executor_takes_outgoing_msg,
  executor_reads_and_resets_yielded_flag, protocol_needs_one_more_msg, protocol_yields,
}
use round_based.StateMachine.Delivery.{poll_next, poll_yield_now}
use round_based.StateMachine.SharedState.Invariant.{
  ProtocolRun, polls_next, polls_yield_now, stop, more, new-IsValid,
}
use round_based.StateMachine.Machine.{
  Future, StateMachineImpl, needs_one_more_message, yielded, wrap_protocol, proceed, received_msg,
  after_poll, after_pending, machine,
}
use round_based.StateMachine.Polite.{IsPolite, machine-IsPolite}
use round_based.PartySim.{returns, receives}
use round_based.PartySim.Skips.{Stops, now, after_yield, receives-Stops}

abbrev reply : Incoming ℕ
reply = record { id = 0; sender = 1; msg_type = broadcast false; msg = 6 }

abbrev result_of : {E : Type 0} → Poll (Option (Result (Incoming ℕ) E)) → Poll ℕ
result_of (ready (some (ok m))) = ready m.msg
result_of _ = pending

abbrev polled : Bool → SharedState ℕ → Bool × SharedState ℕ × Poll ℕ
polled true s = let (s', p) = poll_next s in (true, s', result_of p)
polled false s = let (_, s', _) = poll_yield_now false s in (true, s', pending)

abbrev lazy_echo : Future ℕ ℕ
lazy_echo = record { State = Bool; poll = polled }

runs : (f : Bool) (s : SharedState ℕ) → ProtocolRun s (polled f s).1
runs true s = more stop polls_next
runs false s = more stop (polls_yield_now false)

abbrev polite : IsPolite (machine lazy_echo)
polite = (machine-IsPolite lazy_echo (record { runs = runs })).0

abbrev fresh : StateMachineImpl lazy_echo
fresh = wrap_protocol lazy_echo false

abbrev after_yielding : StateMachineImpl lazy_echo
after_yielding = (proceed lazy_echo fresh).0

abbrev asking : StateMachineImpl lazy_echo
asking = (proceed lazy_echo after_yielding).0

fresh-IsValid : polite.Sound fresh
unfolding wrap_protocol
fresh-IsValid = (machine-IsPolite lazy_echo (record { runs = runs })).1 fresh new-IsValid

yields : proceed lazy_echo fresh ≡ (after_yielding, yielded)
unfolding proceed after_poll after_pending wrap_protocol new can_schedule poll_yield_now
    protocol_yields executor_takes_outgoing_msg executor_reads_and_resets_yielded_flag
yields = refl

asks : proceed lazy_echo after_yielding ≡ (asking, needs_one_more_message)
unfolding proceed after_poll after_pending wrap_protocol new can_schedule poll_next poll_yield_now
    protocol_yields protocol_needs_one_more_msg executor_takes_outgoing_msg
    executor_reads_and_resets_yielded_flag
asks = refl

wants_message : Stops (machine lazy_echo) 1 fresh asking needs_one_more_message
wants_message =
    after_yield 0 fresh after_yielding asking needs_one_more_message yields
      (now after_yielding asking needs_one_more_message asks (ground arith))

receives-Stops_example :
    (receives (machine lazy_echo) 2 (record { machine = fresh }) reply
      ≡ returns (record { machine = (received_msg lazy_echo asking reply).0 }))
    × polite.Sound (received_msg lazy_echo asking reply).0
receives-Stops_example =
    receives-Stops (machine lazy_echo) polite 1 2 (record { machine = fresh }) asking reply
      (omega arith) fresh-IsValid wants_message
