-- ===== src/StateMachine/SharedState.antt =====
-- round-based/src/state_machine/shared_state.rs: the cell that the protocol's delivery, its runtime
-- and the executor share. Each method borrows it once, so a method is a function of its contents.
pub mod Invariant
pub mod Exchange
use round_based.Prelude.{
  Bool, true, false, ◌&&◌, not, Option, none, some, Result, ok, err, if◌then◌else◌, is_some,
}
use round_based.Delivery.{Incoming, Outgoing}

-- `core::task::Poll`
pub data Poll (A : Type 0) : Type 0 where
  ready : A → Poll A
  pending : Poll A

abbrev pub map_poll : {A B : Type 0} → (A → B) → Poll A → Poll B
map_poll f (ready a) = ready (f a)
map_poll f pending = pending

pub record SharedState (M : Type 0) : Type 0 where
  pub incoming_msg : Option (Incoming M)
  pub outgoing_msg : Option (Outgoing M)
  pub wants_recv_msg : Bool
  pub wants_send_msg : Bool
  pub yielded : Bool

unfoldable pub new : (M : Type 0) → SharedState M
new M = record {
  incoming_msg = none;
  outgoing_msg = none;
  wants_recv_msg = false;
  wants_send_msg = false;
  yielded = false;
}

module _ {M : Type 0} where
  -- Whether `can_schedule` gives out its witness.
  unfoldable pub can_schedule : SharedState M → Bool
  can_schedule s = not s.wants_recv_msg && not s.wants_send_msg && not s.yielded

  unfoldable pub protocol_saves_msg_to_be_sent :
      SharedState M → Outgoing M → SharedState M × Result (Unit {0}) (Outgoing M)
  protocol_saves_msg_to_be_sent s msg =
      if is_some s.outgoing_msg then (s, err msg) else (record s { outgoing_msg = some msg }, ok tt)

  -- The `debug_assert` is a theorem about reachable states.
  unfoldable pub executor_takes_outgoing_msg : SharedState M → SharedState M × Option (Outgoing M)
  executor_takes_outgoing_msg s =
      if s.wants_send_msg
      then (record s { wants_send_msg = false; outgoing_msg = none }, s.outgoing_msg)
      else (s, none)

  abbrev pub protocol_wants_more_messages : SharedState M → Bool
  protocol_wants_more_messages s = s.wants_recv_msg

  unfoldable pub executor_reads_and_resets_yielded_flag : SharedState M → SharedState M × Bool
  executor_reads_and_resets_yielded_flag s = (record s { yielded = false }, s.yielded)

  unfoldable pub executor_received_msg :
      SharedState M → Incoming M → SharedState M × Result (Unit {0}) (Incoming M)
  executor_received_msg s msg =
      if is_some s.incoming_msg
      then (s, err msg)
      else (record s { incoming_msg = some msg; wants_recv_msg = false }, ok tt)

  -- The methods of `CanSchedule`, which only a holder of the witness calls.
  unfoldable pub protocol_flushes_outgoing_msg : SharedState M → SharedState M × Poll (Unit {0})
  protocol_flushes_outgoing_msg s =
      if is_some s.outgoing_msg
      then (record s { wants_send_msg = true }, pending)
      else (s, ready tt)

  unfoldable pub protocol_needs_one_more_msg : SharedState M → SharedState M × Poll (Incoming M)
  protocol_needs_one_more_msg s = elim s.incoming_msg [
    | some msg ↦ (record s { incoming_msg = none }, ready msg)
    | none ↦ (record s { wants_recv_msg = true }, pending)
  ]

  unfoldable pub protocol_yields : SharedState M → SharedState M
  protocol_yields s = record s { yielded = true }
