-- ===== src/StateMachine/SharedState/Invariant.antt =====
-- What holds of every state of the cell, round-based/src/state_machine/shared_state.rs, as long as
-- the protocol reaches it through its delivery and its runtime only.
use round_based.Prelude.{◌≡◌, refl, Bool, true, false, arith, is_some, ◌&&◌, not}
use round_based.Delivery.{Incoming, Outgoing}
use round_based.StateMachine.SharedState.{
  SharedState, new, can_schedule, executor_takes_outgoing_msg,
  executor_reads_and_resets_yielded_flag, executor_received_msg, protocol_saves_msg_to_be_sent,
  protocol_flushes_outgoing_msg, protocol_needs_one_more_msg, protocol_yields,
}
use round_based.StateMachine.Delivery.{
  poll_next, poll_ready, start_send, poll_flush, poll_close, poll_yield_now,
}

-- At most one task is scheduled; a message is to be flushed only if there is one, and one more is
-- asked for only if none is waiting.
abbrev one_task : Bool → Bool → Bool → Bool
one_task true recv_send yielded = not recv_send && not yielded
one_task false true yielded = not yielded
one_task false false yielded = true

abbrev implies : Bool → Bool → Bool
implies true b = b
implies false b = true

pub record IsValid {M : Type 0} (s : SharedState M) : Type 0 where
  pub scheduled : one_task s.wants_recv_msg s.wants_send_msg s.yielded ≡ true
  pub flushes : implies s.wants_send_msg (is_some s.outgoing_msg) ≡ true
  pub asks : implies s.wants_recv_msg (not (is_some s.incoming_msg)) ≡ true

-- What the protocol can do to the cell.
pub data ProtocolStep {M : Type 0} (s : SharedState M) : SharedState M → Type 0 where
  polls_next : ProtocolStep s (poll_next s).0
  polls_ready : ProtocolStep s (poll_ready s).0
  starts_send : (msg : Outgoing M) → ProtocolStep s (start_send s msg).0
  polls_flush : ProtocolStep s (poll_flush s).0
  polls_close : ProtocolStep s (poll_close s).0
  polls_yield_now : (flag : Bool) → ProtocolStep s (poll_yield_now flag s).1

-- What the executor can do to it.
pub data ExecutorStep {M : Type 0} (s : SharedState M) : SharedState M → Type 0 where
  takes_outgoing_msg : ExecutorStep s (executor_takes_outgoing_msg s).0
  resets_yielded_flag : ExecutorStep s (executor_reads_and_resets_yielded_flag s).0
  receives_msg : (msg : Incoming M) → ExecutorStep s (executor_received_msg s msg).0

-- The protocol's steps during one poll.
pub data ProtocolRun {M : Type 0} (s : SharedState M) : SharedState M → Type 0 where
  stop : ProtocolRun s s
  more : {t u : SharedState M} → ProtocolRun s t → ProtocolStep t u → ProtocolRun s u

pub data Reachable {M : Type 0} : SharedState M → Type 0 where
  start : Reachable (new M)
  by_protocol : {s t : SharedState M} → Reachable s → ProtocolStep s t → Reachable t
  by_executor : {s t : SharedState M} → Reachable s → ExecutorStep s t → Reachable t

module _ {M : Type 0} where
  pub new-IsValid : IsValid (new M)
  unfolding new
  new-IsValid = record { scheduled = refl; flushes = refl; asks = refl }

  ProtocolStep-IsValid : {s t : SharedState M} → ProtocolStep s t → IsValid s → IsValid t
  unfolding poll_next poll_ready start_send poll_flush poll_close poll_yield_now can_schedule
      protocol_saves_msg_to_be_sent protocol_flushes_outgoing_msg protocol_needs_one_more_msg
      protocol_yields
  ProtocolStep-IsValid polls_next v = ground arith
  ProtocolStep-IsValid polls_ready v = ground arith
  ProtocolStep-IsValid (starts_send msg) v = ground arith
  ProtocolStep-IsValid polls_flush v = ground arith
  ProtocolStep-IsValid polls_close v = v
  ProtocolStep-IsValid (polls_yield_now flag) v = ground arith

  pub ExecutorStep-IsValid : {s t : SharedState M} → ExecutorStep s t → IsValid s → IsValid t
  unfolding executor_takes_outgoing_msg executor_reads_and_resets_yielded_flag executor_received_msg
  ExecutorStep-IsValid takes_outgoing_msg v = ground arith
  ExecutorStep-IsValid resets_yielded_flag v = ground arith
  ExecutorStep-IsValid (receives_msg msg) v = ground arith

  pub ProtocolRun-IsValid : {s t : SharedState M} → ProtocolRun s t → IsValid s → IsValid t
  ProtocolRun-IsValid stop v = v
  ProtocolRun-IsValid (more run step) v = ProtocolStep-IsValid step (ProtocolRun-IsValid run v)

  -- In every reachable state at most one task is scheduled, flushing is asked for only where there
  -- is a message, which is the source's `debug_assert`, and receiving only where none is waiting.
  pub Reachable-IsValid : {s : SharedState M} → Reachable s → IsValid s
  Reachable-IsValid start = new-IsValid
  Reachable-IsValid (by_protocol r step) = ProtocolStep-IsValid step (Reachable-IsValid r)
  Reachable-IsValid (by_executor r step) = ExecutorStep-IsValid step (Reachable-IsValid r)
