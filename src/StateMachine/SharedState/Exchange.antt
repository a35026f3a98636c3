-- ===== src/StateMachine/SharedState/Exchange.antt =====
-- How a message gets through the cell, round-based/src/state_machine: from the protocol's sink to
-- the executor.
use round_based.Prelude.{◌≡◌, true, none, some, ok, err, arith}
use round_based.Delivery.{Outgoing}
use round_based.StateMachine.SharedState.{
  SharedState, ready, pending, can_schedule, executor_takes_outgoing_msg,
  protocol_saves_msg_to_be_sent, protocol_flushes_outgoing_msg,
}
use round_based.StateMachine.Delivery.{not_ready, start_send, poll_flush, poll_ready}

module _ {M : Type 0} where
  -- Where a task can be scheduled and the sink holds nothing, a message put into the sink is not
  -- sent until it is flushed; flushing waits for the executor, who then takes that message and no
  -- other, and the cell is as before. A second message before that is refused and leaves the first
  -- in place.
  pub send_exchange :
      (s : SharedState M) (msg other : Outgoing M)
      → can_schedule s ≡ true
      → s.outgoing_msg ≡ none
      → let put = (start_send s msg).0 in
        let flushing = (poll_flush put).0 in
        ((start_send s msg).1 ≡ ok tt)
        × (start_send put other ≡ (put, err not_ready))
        × ((executor_takes_outgoing_msg put).1 ≡ none)
        × ((poll_flush put).1 ≡ pending)
        × (executor_takes_outgoing_msg flushing ≡ (s, some msg))
        × (poll_flush s ≡ (s, ready (ok tt)))
        × (poll_ready s ≡ (s, ready (ok tt)))
  unfolding start_send poll_flush poll_ready can_schedule executor_takes_outgoing_msg
      protocol_saves_msg_to_be_sent protocol_flushes_outgoing_msg
  send_exchange s msg other idle empty = ground arith
