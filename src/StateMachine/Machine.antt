-- ===== src/StateMachine/Machine.antt =====
-- round-based/src/state_machine/mod.rs: `StateMachineImpl` resumes the protocol's future and tells
-- why it stopped. The future is the user's: it is given by its `poll`, which sees the shared state.
pub mod Proceed
use round_based.Prelude.{Bool, true, false, Option, none, some, Result, ok, err, if◌then◌else◌}
use round_based.Delivery.{Incoming, Outgoing}
use round_based.StateMachine.SharedState.{
  SharedState, Poll, ready, pending, executor_takes_outgoing_msg, protocol_wants_more_messages,
  executor_reads_and_resets_yielded_flag, executor_received_msg,
}
use round_based.StateMachine.SharedState

-- `ExecutionError(Reason)`
pub data ExecutionError : Type 0 where
  exhausted polling_unknown_future : ExecutionError

pub data ProceedResult (O M : Type 0) : Type 0 where
  send_msg : Outgoing M → ProceedResult O M
  needs_one_more_message : ProceedResult O M
  output : O → ProceedResult O M
  yielded : ProceedResult O M
  error : ExecutionError → ProceedResult O M

-- The trait `StateMachine`.
pub record StateMachine (O M : Type 0) : Type 1 where
  pub State : Type 0
  pub proceed : State → State × ProceedResult O M
  pub received_msg : State → Incoming M → State × Result (Unit {0}) (Incoming M)

pub record Future (O M : Type 0) : Type 1 where
  pub State : Type 0
  pub poll : State → SharedState M → State × SharedState M × Poll O

module _ {O M : Type 0} (F : Future O M) where
  pub record StateMachineImpl : Type 0 where
    pub shared_state : SharedState M
    pub is_exhausted : Bool
    pub future : F.State

  -- `wrap_protocol`, for a protocol whose future starts in the given state.
  unfoldable pub wrap_protocol : F.State → StateMachineImpl
  wrap_protocol f = record { shared_state = SharedState.new M; is_exhausted = false; future = f }

  -- The checks after a poll that is pending, in their order.
  unfoldable pub after_pending : F.State → SharedState M → StateMachineImpl × ProceedResult O M
  after_pending f s =
      let (s1, outgoing) = executor_takes_outgoing_msg s in
      let (s2, flag) = executor_reads_and_resets_yielded_flag s1 in
      elim outgoing [
        | some msg ↦ (record { shared_state = s1; is_exhausted = false; future = f }, send_msg msg)
        | none ↦
            if protocol_wants_more_messages s1
            then (
              record { shared_state = s1; is_exhausted = false; future = f },
              needs_one_more_message,
            )
            else if flag
            then (record { shared_state = s2; is_exhausted = false; future = f }, yielded)
            else (
              record { shared_state = s2; is_exhausted = false; future = f },
              error polling_unknown_future,
            )
      ]

  unfoldable pub after_poll :
      F.State × SharedState M × Poll O → StateMachineImpl × ProceedResult O M
  unfolding after_pending
  after_poll (f, s, ready o) =
      (record { shared_state = s; is_exhausted = true; future = f }, output o)
  after_poll (f, s, pending) = after_pending f s

  unfoldable pub proceed : StateMachineImpl → StateMachineImpl × ProceedResult O M
  unfolding after_poll
  proceed m =
      if m.is_exhausted then (m, error exhausted) else after_poll (F.poll m.future m.shared_state)

  unfoldable pub received_msg :
      StateMachineImpl → Incoming M → StateMachineImpl × Result (Unit {0}) (Incoming M)
  received_msg m msg =
      let (s, r) = executor_received_msg m.shared_state msg in
      (record { shared_state = s; is_exhausted = m.is_exhausted; future = m.future }, r)

  abbrev pub machine : StateMachine O M
  machine = record { State = StateMachineImpl; proceed = proceed; received_msg = received_msg }
