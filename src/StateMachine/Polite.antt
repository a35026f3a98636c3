-- ===== src/StateMachine/Polite.antt =====
-- What a caller of the trait `StateMachine` (round-based/src/state_machine/mod.rs) relies on, as an
-- interface, and that `StateMachineImpl` provides it.
use round_based.Prelude.{◌≡◌, none, ok, arith, subst}
use round_based.Delivery.{Incoming}
use round_based.StateMachine.SharedState.{executor_received_msg}
use round_based.StateMachine.SharedState.Invariant.{IsValid, receives_msg, ExecutorStep-IsValid}
use round_based.StateMachine.Machine.{
  StateMachine, Future, StateMachineImpl, needs_one_more_message, proceed, received_msg, machine,
}
use round_based.StateMachine.Machine.Proceed.{IsConfined, Reports, proceed-IsValid, proceed-Reports}

-- In a sound state a machine that asks for a message is ready for one, and a ready machine accepts it.
pub record IsPolite {O M : Type 0} (S : StateMachine O M) : Type 1 where
  pub Sound : S.State → Type 0
  pub Ready : S.State → Type 0
  pub proceeds : (s : S.State) → Sound s → Sound (S.proceed s).0
  pub asks :
      (s : S.State) → Sound s → (S.proceed s).1 ≡ needs_one_more_message → Ready (S.proceed s).0
  pub receives : (s : S.State) (m : Incoming M) → Sound s → Sound (S.received_msg s m).0
  pub accepts : (s : S.State) (m : Incoming M) → Sound s → Ready s → (S.received_msg s m).1 ≡ ok tt

module _ {O M : Type 0} (F : Future O M) (confined : IsConfined F) where
  received_msg-IsValid :
      (m : StateMachineImpl F) (msg : Incoming M)
      → IsValid m.shared_state
      → IsValid (received_msg F m msg).0.shared_state
  unfolding received_msg
  received_msg-IsValid m msg v = ExecutorStep-IsValid (receives_msg msg) v

  free-accepts :
      (m : StateMachineImpl F) (msg : Incoming M)
      → m.shared_state.incoming_msg ≡ none
      → (received_msg F m msg).1 ≡ ok tt
  unfolding received_msg executor_received_msg
  free-accepts m msg free = ground arith

  -- A wrapped protocol that is confined to its delivery and runtime is polite, and sound while its
  -- shared state is valid.
  pub machine-IsPolite :
      (polite : IsPolite (machine F)) × ((m : StateMachineImpl F)
        → IsValid m.shared_state
        → polite.Sound m)
  machine-IsPolite = (
    record {
      Sound = λ m. IsValid m.shared_state;
      Ready = λ m. m.shared_state.incoming_msg ≡ none;
      proceeds = λ m v. proceed-IsValid F confined m v;
      asks =
          λ m v e. (subst (λ x. Reports F (proceed F m).0 x) e (proceed-Reports F confined m v)).2;
      receives = λ m msg v. received_msg-IsValid m msg v;
      accepts = λ m msg v free. free-accepts m msg free;
    },
    λ m v. v,
  )
