-- ===== src/PartySim/Skips.antt =====
-- The loops of round-based-tests/src/lib.rs reach the first result that is not `Yielded`.
use round_based.Prelude.{ℕ, zero, suc, ◌<◌, ◌≡◌, ◌≢◌, refl, ap, subst, ◌∙◌, arith, ok}
use round_based.Delivery.{Incoming}
use round_based.StateMachine.Machine.{
  StateMachine, ProceedResult, send_msg, needs_one_more_message, output, yielded, error,
}
use round_based.StateMachine.Polite.{IsPolite}
use round_based.PartySim.{Outcome, returns, PartySim, skip_yields, feed, receives}

module _ {O M : Type 0} (S : StateMachine O M) where
  -- The machine yields `k` times, and then stops in the state `m'` with the result `r`.
  pub data Stops : ℕ → S.State → S.State → ProceedResult O M → Type 0 where
    now :
        (m m' : S.State) (r : ProceedResult O M)
        → S.proceed m ≡ (m', r)
        → r ≢ yielded
        → Stops zero m m' r
    after_yield :
        (k : ℕ) (m m1 m' : S.State) (r : ProceedResult O M)
        → S.proceed m ≡ (m1, yielded)
        → Stops k m1 m' r
        → Stops (suc k) m m' r

  once :
      {A : Type 0} (steps : ℕ) (m m' : S.State) (r : ProceedResult O M)
      (wanted : S.State → ProceedResult O M → Outcome A)
      → S.proceed m ≡ (m', r)
      → r ≢ yielded
      → skip_yields S (suc steps) m wanted ≡ wanted m' r
  unfolding skip_yields
  once steps m m' (send_msg out) wanted e ne =
      rw (ap (λ x. x.1) e, skip_yields) (ap (λ x. wanted x.0 (send_msg out)) e)
  once steps m m' needs_one_more_message wanted e ne =
      rw (ap (λ x. x.1) e, skip_yields) (ap (λ x. wanted x.0 needs_one_more_message) e)
  once steps m m' (output o) wanted e ne =
      rw (ap (λ x. x.1) e, skip_yields) (ap (λ x. wanted x.0 (output o)) e)
  once steps m m' (error x) wanted e ne =
      rw (ap (λ x. x.1) e, skip_yields) (ap (λ y. wanted y.0 (error x)) e)
  once steps m m' yielded wanted e ne = absurd (ne refl)

  -- With more steps than yields, the loop ends with what the caller makes of the first other result.
  skip_yields-Stops :
      {A : Type 0} (k steps : ℕ) (m m' : S.State) (r : ProceedResult O M)
      (wanted : S.State → ProceedResult O M → Outcome A)
      → k < steps
      → Stops k m m' r
      → skip_yields S steps m wanted ≡ wanted m' r
  unfolding skip_yields
  skip_yields-Stops k zero m m' r wanted lt stops = absurd (omega arith)
  skip_yields-Stops _ (suc steps) _ _ _ wanted lt (now m m' r e ne) = once steps m m' r wanted e ne
  skip_yields-Stops _ (suc steps) _ _ _ wanted lt (after_yield k m m1 m' r e stops) =
      rw (ap (λ x. x.1) e, skip_yields)
        (ap (λ x. skip_yields S steps x.0 wanted) e
          ∙ skip_yields-Stops k steps m1 m' r wanted (omega arith) stops)

  -- The state before the stop, from which the machine stops at once, is sound in a polite machine.
  stop_reached :
      (polite : IsPolite S) (k : ℕ) (m m' : S.State) (r : ProceedResult O M)
      → polite.Sound m
      → Stops k m m' r
      → (last : S.State) × polite.Sound last × (S.proceed last ≡ (m', r))
  stop_reached polite _ _ _ _ sound (now m m' r e ne) = (m, sound, e)
  stop_reached polite _ _ _ _ sound (after_yield k m m1 m' r e stops) =
      stop_reached polite k m1 m' r (subst polite.Sound (ap (λ x. x.0) e) (polite.proceeds m sound))
        stops

  feed-ok :
      (msg : Incoming M) (m : S.State)
      → (S.received_msg m msg).1 ≡ ok tt
      → feed S msg m needs_one_more_message
        ≡ returns (record { machine = (S.received_msg m msg).0 })
  unfolding feed
  feed-ok msg m e = rw (e, feed) refl

  -- Let a machine that keeps the contract of `StateMachine` yield `k` times from a sound state, and
  -- then ask for a message. Then `receives`, with more than `k` steps, does not panic: the machine is
  -- fed the message in the state in which it asked, and is sound afterwards.
  pub receives-Stops :
      (polite : IsPolite S) (k steps : ℕ) (sim : PartySim S) (m' : S.State) (msg : Incoming M)
      → k < steps
      → polite.Sound sim.machine
      → Stops k sim.machine m' needs_one_more_message
      → (receives S steps sim msg ≡ returns (record { machine = (S.received_msg m' msg).0 }))
        × polite.Sound (S.received_msg m' msg).0
  unfolding receives
  receives-Stops polite k steps sim m' msg lt sound stops =
      let (last, sound', e) =
        stop_reached polite k sim.machine m' needs_one_more_message sound stops in
      let here = ap (λ x. x.0) e in
      let ready = subst polite.Ready here (polite.asks last sound' (ap (λ x. x.1) e)) in
      let sound'' = subst polite.Sound here (polite.proceeds last sound') in
      (
        skip_yields-Stops k steps sim.machine m' needs_one_more_message (feed S msg) lt stops
            ∙ feed-ok msg m' (polite.accepts m' msg sound'' ready),
        polite.receives m' msg sound'',
      )
