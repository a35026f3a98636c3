-- ===== src/PartySim.antt =====
-- round-based-tests/src/lib.rs: one party that is fed and asked step by step. The loops go on as long
-- as the machine yields, so `steps` bounds them; `out_of_steps` means that the bound was met, and
-- `panics` is the panic of the source.
pub mod Skips
mod Tests
use round_based.Prelude.{ℕ, zero, suc, Bool, true, false, Result, ok, err, if◌then◌else◌}
use round_based.Delivery.{Incoming, Outgoing}
use round_based.StateMachine.Machine.{
  StateMachine, ProceedResult, send_msg, needs_one_more_message, output, yielded, error,
}

pub data Outcome (A : Type 0) : Type 0 where
  returns : A → Outcome A
  panics : Outcome A
  out_of_steps : Outcome A

module _ {O M : Type 0} (S : StateMachine O M) where
  -- `PartySim(S)`
  pub record PartySim : Type 0 where
    pub machine : S.State

  -- A loop over `proceed` that skips `Yielded`: `wanted` is the match on any other result.
  unfoldable pub skip_yields :
      {A : Type 0} → ℕ → S.State → (S.State → ProceedResult O M → Outcome A) → Outcome A
  skip_yields zero m wanted = out_of_steps
  skip_yields (suc steps) m wanted =
      let (m', result) = S.proceed m in
      let again = skip_yields steps m' wanted in
      elim result [
        | yielded ↦ again
        | send_msg out ↦ wanted m' (send_msg out)
        | needs_one_more_message ↦ wanted m' needs_one_more_message
        | output o ↦ wanted m' (output o)
        | error e ↦ wanted m' (error e)
      ]

  -- The message is fed once the machine asks for one.
  unfoldable pub feed : Incoming M → S.State → ProceedResult O M → Outcome PartySim
  feed msg m needs_one_more_message =
      let (m', saved) = S.received_msg m msg in
      elim saved [ ok _ ↦ returns (record { machine = m' }) | err _ ↦ panics ]
  feed msg m (send_msg _) = panics
  feed msg m (output _) = panics
  feed msg m yielded = panics
  feed msg m (error _) = panics

  unfoldable pub receives : ℕ → PartySim → Incoming M → Outcome PartySim
  unfolding skip_yields feed
  receives steps sim msg = skip_yields steps sim.machine (feed msg)

  unfoldable pub sent : S.State → ProceedResult O M → Outcome (PartySim × Outgoing M)
  sent m (send_msg out) = returns (record { machine = m }, out)
  sent m needs_one_more_message = panics
  sent m (output _) = panics
  sent m yielded = panics
  sent m (error _) = panics

  unfoldable pub sends : ℕ → PartySim → Outcome (PartySim × Outgoing M)
  unfolding skip_yields sent
  sends steps sim = skip_yields steps sim.machine sent

  unfoldable pub put_out : S.State → ProceedResult O M → Outcome (PartySim × O)
  put_out m (output o) = returns (record { machine = m }, o)
  put_out m needs_one_more_message = panics
  put_out m (send_msg _) = panics
  put_out m yielded = panics
  put_out m (error _) = panics

  unfoldable pub outputs : ℕ → PartySim → Outcome (PartySim × O)
  unfolding skip_yields put_out
  outputs steps sim = skip_yields steps sim.machine put_out
