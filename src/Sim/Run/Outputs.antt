-- ===== src/Sim/Run/Outputs.antt =====
-- What a simulation (round-based/src/sim/mod.rs) that ends has computed.
use round_based.Prelude.{
  ℕ, zero, suc, ◌+◌, ◌-◌, ◌≡◌, refl, ap, ◌∙◌, inl, inr, true, false, Option, none, some, List, [],
  ◌∷◌, Result, ok, err, length, ltb, arith, Bool-cases,
}
use round_based.StateMachine.Machine.{StateMachine}
use round_based.Sim.Queue.{MessagesQueue, SimError}
use round_based.Sim.Run.{
  Party, active, finished, run_party, run_parties, just_finished, ahead, then_parties, Turn, Pass,
  outputs, Outcome, out_of_fuel, panics, fails, succeeds, finish, after_pass, run_loop, run,
}

module _ {O M : Type 0} (S : StateMachine O M) where
  abbrev pub active_parties : List (Party S) → ℕ
  active_parties [] = 0
  active_parties (active _ _ ∷ ps) = suc (active_parties ps)
  active_parties (finished _ ∷ ps) = active_parties ps

  outputs_all :
      (ps : List (Party S))
      → active_parties ps ≡ 0
      → (os : List O) × (outputs S ps ≡ some os) × (length os ≡ length ps)
  unfolding outputs
  outputs_all [] h = ([], refl, refl)
  outputs_all (active m w ∷ ps) h = absurd (omega arith)
  outputs_all (finished o ∷ ps) h = let (os, e, l) = outputs_all ps h in (o ∷ os, rw e, ap suc l)

  ahead-eq-ok :
      (p : Party S) (k : ℕ) (r : Option (Result (List (Party S) × MessagesQueue M × ℕ) SimError))
      (ps' : List (Party S)) (q' : MessagesQueue M) (n : ℕ)
      → ahead S p k r ≡ some (ok (ps', q', n))
      → (ps : List (Party S)) × (n0 : ℕ) × (r ≡ some (ok (ps, q', n0)))
        × (ps' ≡ p ∷ ps)
        × (n ≡ k + n0)
  ahead-eq-ok p k none ps' q' n e = ground arith
  ahead-eq-ok p k (some (err x)) ps' q' n e = ground arith
  ahead-eq-ok p k (some (ok (ps, q, n0))) ps' q' n e =
      (ps, n0, ground arith, ground arith, ground arith)

  then_parties-eq-ok :
      (t : Turn S) (others : MessagesQueue M → Pass S) (ps' : List (Party S)) (q' : MessagesQueue M)
      (n : ℕ)
      → then_parties S t others ≡ some (ok (ps', q', n))
      → (p : Party S) × (q : MessagesQueue M) × (t ≡ some (ok (p, q)))
        × (ahead S p (just_finished S p) (others q) ≡ some (ok (ps', q', n)))
  then_parties-eq-ok none others ps' q' n e = ground arith
  then_parties-eq-ok (some (err x)) others ps' q' n e = ground arith
  then_parties-eq-ok (some (ok (p, q))) others ps' q' n e = (p, q, refl, e)

  counted :
      (p : Party S) (ps : List (Party S))
      → active_parties (p ∷ ps) + just_finished S p ≡ suc (active_parties ps)
  counted (active m w) ps = omega arith
  counted (finished o) ps = omega arith

  -- A pass keeps the number of parties, and counts those that it finishes.
  pub pass_counts :
      (steps i : ℕ) (ps : List (Party S)) (q : MessagesQueue M) (ps' : List (Party S))
      (q' : MessagesQueue M) (n : ℕ)
      → run_parties S steps i ps q ≡ some (ok (ps', q', n))
      → (length ps' ≡ length ps) × (active_parties ps ≡ active_parties ps' + n)
  unfolding run_parties
  pass_counts steps i [] q ps' q' n e = ground arith
  pass_counts steps i (finished o ∷ ps) q ps' q' n e =
      let (ps0, n0, e0, shape, count) = ahead-eq-ok (finished o) 0 _ ps' q' n e in
      let ih = pass_counts steps (i + 1) ps q ps0 q' n0 e0 in
      (omega (arith, ih.0, ap length shape), omega (arith, ih.1, ap active_parties shape, count))
  pass_counts steps i (active m w ∷ ps) q ps' q' n e =
      let (p, q1, turn, others) =
        then_parties-eq-ok (run_party S steps i m w q) (λ q'. run_parties S steps (i + 1) ps q') ps'
          q' n e in
      let (ps0, n0, e0, shape, count) = ahead-eq-ok p (just_finished S p) _ ps' q' n others in
      let ih = pass_counts steps (i + 1) ps q1 ps0 q' n0 e0 in
      (
        omega (arith, ih.0, ap length shape),
        omega (arith, ih.1, ap active_parties shape, count, counted p ps0),
      )

  -- What a run must not report, and what it reports of the outputs.
  abbrev pub Reports : ℕ → Outcome S → Type 0
  Reports n out_of_fuel = Unit {0}
  Reports n panics = ⊥
  Reports n (fails e) = Unit {0}
  Reports n (succeeds os) = length os ≡ n

  pub run_loop_over :
      (rounds steps : ℕ) (ps : List (Party S)) (q : MessagesQueue M) (left : ℕ)
      → ltb 0 left ≡ false
      → run_loop S (suc rounds) steps ps q left ≡ finish S (outputs S ps)
  unfolding run_loop
  run_loop_over rounds steps ps q left h = rw (h, run_loop)

  pub run_loop_more :
      (rounds steps : ℕ) (ps : List (Party S)) (q : MessagesQueue M) (left : ℕ)
      → ltb 0 left ≡ true
      → run_loop S (suc rounds) steps ps q left
        ≡ after_pass S (run_loop S rounds steps) left (run_parties S steps 0 ps q)
  unfolding run_loop
  run_loop_more rounds steps ps q left h = rw (h, run_loop)

  after_pass-Reports :
      (k left : ℕ) (again : List (Party S) → MessagesQueue M → ℕ → Outcome S) (r : Pass S)
      → ((ps : List (Party S)) (q : MessagesQueue M) (n : ℕ)
          → r ≡ some (ok (ps, q, n))
          → Reports k (again ps q (left - n)))
      → Reports k (after_pass S again left r)
  after_pass-Reports k left again none h = tt
  after_pass-Reports k left again (some (err e)) h = tt
  after_pass-Reports k left again (some (ok (ps, q, n))) h = h ps q n refl

  run_loop-Reports :
      (rounds steps : ℕ) (ps : List (Party S)) (q : MessagesQueue M) (left k : ℕ)
      → length ps ≡ k
      → active_parties ps ≡ left
      → Reports k (run_loop S rounds steps ps q left)
  run_loop-Reports zero steps ps q left k l h = unfold run_loop in tt
  run_loop-Reports (suc rounds) steps ps q left k l h = elim (Bool-cases (ltb 0 left)) [
    | inr over ↦
        let (os, e, len) = outputs_all ps (ground arith) in
        rw (run_loop_over rounds steps ps q left over) (rw e (len ∙ l))
    | inl more ↦ rw (run_loop_more rounds steps ps q left more) (
        after_pass-Reports k left (run_loop S rounds steps) _ λ ps' q' n e.
          let (same, counts) = pass_counts steps 0 ps q ps' q' n e in
          run_loop-Reports rounds steps ps' q' (left - n) k (same ∙ l) (omega (arith, counts, h)))
  ]

  -- A simulation of parties that have not finished never panics over an unfinished party, and if it
  -- succeeds there is one output for each party.
  pub run-Reports :
      (rounds steps : ℕ) (ps : List (Party S))
      → active_parties ps ≡ length ps
      → Reports (length ps) (run S rounds steps ps)
  unfolding run
  run-Reports rounds steps ps h = run_loop-Reports rounds steps ps _ (length ps) (length ps) refl h
