-- ===== src/StateMachine/Machine/Proceed.antt =====
-- What `proceed` of round-based/src/state_machine/mod.rs reports, and what the caller may do then.
use round_based.Prelude.{
  ◌≡◌, ◌≢◌, refl, inl, inr, true, false, none, some, ok, arith, Bool-cases, subst,
}
use round_based.Delivery.{Incoming}
use round_based.StateMachine.SharedState.{
  SharedState, Poll, ready, pending, can_schedule, executor_takes_outgoing_msg,
  executor_reads_and_resets_yielded_flag, executor_received_msg, protocol_needs_one_more_msg,
}
use round_based.StateMachine.Delivery.{poll_next}
use round_based.StateMachine.SharedState.Invariant.{IsValid, ProtocolRun, ProtocolRun-IsValid}
use round_based.StateMachine.Machine.{
  Future, StateMachineImpl, ProceedResult, send_msg, needs_one_more_message, output, yielded, error,
  exhausted, polling_unknown_future, after_pending, after_poll, proceed, received_msg,
}

-- A future that touches the shared state through the delivery and the runtime only.
pub record IsConfined {O M : Type 0} (F : Future O M) : Type 0 where
  pub runs : (f : F.State) (s : SharedState M) → ProtocolRun s (F.poll f s).1

module _ {O M : Type 0} (F : Future O M) where
  after_pending-IsValid :
      (f : F.State) (s : SharedState M) → IsValid s → IsValid (after_pending F f s).0.shared_state
  unfolding after_pending executor_takes_outgoing_msg executor_reads_and_resets_yielded_flag
  after_pending-IsValid f s v = ground arith

  after_poll-IsValid :
      (x : F.State × SharedState M × Poll O) → IsValid x.1 → IsValid (after_poll F x).0.shared_state
  unfolding after_poll
  after_poll-IsValid (f, s, ready o) v = v
  after_poll-IsValid (f, s, pending) v = after_pending-IsValid f s v

  -- The invariant of the shared state survives every call of the executor.
  pub proceed-IsValid :
      IsConfined F
      → (m : StateMachineImpl F) → IsValid m.shared_state
      → IsValid (proceed F m).0.shared_state
  unfolding proceed
  proceed-IsValid c m v = elim (Bool-cases m.is_exhausted) [
    | inl done ↦ rw done v
    | inr live ↦ rw live (
        after_poll-IsValid (F.poll m.future m.shared_state)
          (ProtocolRun-IsValid (c.runs m.future m.shared_state) v))
  ]

  -- What the caller is told, against the state that is left behind: a message to send was flushed by
  -- the protocol and its slot is free again; a message is asked for only where the slot for it is
  -- free; an output ends the machine.
  abbrev pub Reports : StateMachineImpl F → ProceedResult O M → Type 0
  Reports m (send_msg msg) =
      (m.is_exhausted ≡ false)
      × (m.shared_state.outgoing_msg ≡ none)
      × (m.shared_state.wants_send_msg ≡ false)
  Reports m needs_one_more_message =
      (m.is_exhausted ≡ false)
      × (m.shared_state.wants_recv_msg ≡ true)
      × (m.shared_state.incoming_msg ≡ none)
  Reports m (output o) = m.is_exhausted ≡ true
  Reports m yielded = (m.is_exhausted ≡ false) × (can_schedule m.shared_state ≡ true)
  Reports m (error exhausted) = m.is_exhausted ≡ true
  Reports m (error polling_unknown_future) =
      (m.is_exhausted ≡ false) × (can_schedule m.shared_state ≡ true)

  after_pending-Reports :
      (f : F.State) (s : SharedState M)
      → IsValid s
      → Reports (after_pending F f s).0 (after_pending F f s).1
  unfolding after_pending executor_takes_outgoing_msg executor_reads_and_resets_yielded_flag
      can_schedule
  after_pending-Reports f s v = ground arith

  after_poll-Reports :
      (x : F.State × SharedState M × Poll O)
      → IsValid x.1
      → Reports (after_poll F x).0 (after_poll F x).1
  unfolding after_poll
  after_poll-Reports (f, s, ready o) v = refl
  after_poll-Reports (f, s, pending) v = after_pending-Reports f s v

  -- For a future that is confined to its delivery and runtime, and a valid shared state, each
  -- report of `proceed` describes the state it leaves: after a message to send, the slot for it is
  -- free and nothing is to be flushed; a message is asked for only where none is waiting; after an
  -- output, and with the report that it is exhausted, the machine is at its end; after a yield,
  -- and with the report of an unknown future, a task can be scheduled.
  pub proceed-Reports :
      IsConfined F
      → (m : StateMachineImpl F) → IsValid m.shared_state
      → Reports (proceed F m).0 (proceed F m).1
  unfolding proceed
  proceed-Reports c m v = elim (Bool-cases m.is_exhausted) [
    | inl done ↦ rw done refl
    | inr live ↦ rw live (
        after_poll-Reports (F.poll m.future m.shared_state)
          (ProtocolRun-IsValid (c.runs m.future m.shared_state) v))
  ]

  accept :
      (m : StateMachineImpl F) (msg : Incoming M)
      → IsValid m.shared_state
      → Reports m needs_one_more_message
      → ((received_msg F m msg).1 ≡ ok tt)
        × (poll_next (received_msg F m msg).0.shared_state ≡ (
          record (received_msg F m msg).0.shared_state { incoming_msg = none },
          ready (some (ok msg)),
        ))
  unfolding received_msg executor_received_msg poll_next protocol_needs_one_more_msg can_schedule
  accept m msg v told = ground arith

  -- For a confined future and a valid shared state, the caller can deliver a message after a
  -- request for one: it is accepted, it leaves the protocol free to schedule, and the next poll of
  -- the incoming stream yields it.
  pub received_msg-delivered :
      (m : StateMachineImpl F) (msg : Incoming M)
      → IsConfined F
      → IsValid m.shared_state
      → (proceed F m).1 ≡ needs_one_more_message
      → ((received_msg F (proceed F m).0 msg).1 ≡ ok tt)
        × (poll_next (received_msg F (proceed F m).0 msg).0.shared_state ≡ (
          record (received_msg F (proceed F m).0 msg).0.shared_state { incoming_msg = none },
          ready (some (ok msg)),
        ))
  received_msg-delivered m msg c v e =
      let after = proceed-IsValid c m v in
      let report = proceed-Reports c m v in
      let told = subst (λ x. Reports (proceed F m).0 x) e report in
      accept (proceed F m).0 msg after told

  after_pending-ne-output :
      (f : F.State) (s : SharedState M) (o : O) → (after_pending F f s).1 ≢ output o
  unfolding after_pending executor_takes_outgoing_msg executor_reads_and_resets_yielded_flag
  after_pending-ne-output f s o e = ground arith

  after_poll-output :
      (x : F.State × SharedState M × Poll O) (o : O)
      → (after_poll F x).1 ≡ output o
      → (after_poll F x).0.is_exhausted ≡ true
  unfolding after_poll
  after_poll-output (f, s, ready o') o e = refl
  after_poll-output (f, s, pending) o e = absurd (after_pending-ne-output f s o e)

  proceed-output :
      (m : StateMachineImpl F) (o : O)
      → (proceed F m).1 ≡ output o
      → (proceed F m).0.is_exhausted ≡ true
  unfolding proceed
  proceed-output m o e = elim (Bool-cases m.is_exhausted) [
    | inl done ↦ absurd (ground (arith, rw done at e))
    | inr live ↦ rw live (after_poll-output _ o (rw live at e))
  ]

  proceed_over :
      (m : StateMachineImpl F) → m.is_exhausted ≡ true → proceed F m ≡ (m, error exhausted)
  unfolding proceed
  proceed_over m done = simp done

  -- Once the protocol has put out its result, every further call reports that it is exhausted and
  -- changes nothing.
  pub proceed-exhausted :
      (m : StateMachineImpl F) (o : O)
      → (proceed F m).1 ≡ output o
      → proceed F (proceed F m).0 ≡ ((proceed F m).0, error exhausted)
  proceed-exhausted m o e = proceed_over (proceed F m).0 (proceed-output m o e)
