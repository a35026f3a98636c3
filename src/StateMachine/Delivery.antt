-- ===== src/StateMachine/Delivery.antt =====
-- round-based/src/state_machine/delivery.rs and runtime.rs: what the protocol may await. `ready!` is
-- the test of the witness that `can_schedule` gives out.
use round_based.Prelude.{Bool, true, false, Option, some, Result, ok, map_err, if◌then◌else◌}
use round_based.Delivery.{Incoming, Outgoing}
use round_based.StateMachine.SharedState.{
  SharedState, Poll, ready, pending, map_poll, can_schedule, protocol_saves_msg_to_be_sent,
  protocol_flushes_outgoing_msg, protocol_needs_one_more_msg, protocol_yields,
}

-- `DeliveryErr(Reason)`
pub data DeliveryErr : Type 0 where
  not_ready : DeliveryErr

module _ {M : Type 0} where
  unfoldable pub poll_next :
      SharedState M → SharedState M × Poll (Option (Result (Incoming M) DeliveryErr))
  poll_next s =
      if can_schedule s
      then (let (s', p) = protocol_needs_one_more_msg s in (s', map_poll (λ msg. some (ok msg)) p))
      else (s, pending)

  unfoldable pub poll_ready : SharedState M → SharedState M × Poll (Result (Unit {0}) DeliveryErr)
  poll_ready s =
      if can_schedule s
      then (let (s', p) = protocol_flushes_outgoing_msg s in (s', map_poll (λ u. ok u) p))
      else (s, pending)

  unfoldable pub start_send :
      SharedState M → Outgoing M → SharedState M × Result (Unit {0}) DeliveryErr
  start_send s msg =
      let (s', r) = protocol_saves_msg_to_be_sent s msg in (s', map_err (λ _. not_ready) r)

  unfoldable pub poll_flush : SharedState M → SharedState M × Poll (Result (Unit {0}) DeliveryErr)
  poll_flush s =
      if can_schedule s
      then (let (s', p) = protocol_flushes_outgoing_msg s in (s', map_poll (λ u. ok u) p))
      else (s, pending)

  unfoldable pub poll_close : SharedState M → SharedState M × Poll (Result (Unit {0}) DeliveryErr)
  poll_close s = (s, ready (ok tt))

  -- The future `YieldNow`, by its flag.
  unfoldable pub poll_yield_now : Bool → SharedState M → Bool × SharedState M × Poll (Unit {0})
  poll_yield_now yielded s =
      if yielded
      then (true, s, ready tt)
      else if can_schedule s
      then (true, protocol_yields s, pending)
      else (false, s, pending)
