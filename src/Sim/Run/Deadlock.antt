-- ===== src/Sim/Run/Deadlock.antt =====
-- A simulation (round-based/src/sim/mod.rs) in which every party waits for another.
use round_based.Prelude.{
  ℕ, zero, suc, ◌+◌, ◌-◌, ◌<◌, ◌≡◌, refl, ◌∙◌, true, some, List, [], ◌∷◌, ok, get_or, arith,
}
use round_based.StateMachine.Machine.{StateMachine}
use round_based.Sim.Queue.{MessagesQueue, recv_next_msg}
use round_based.Sim.Run.{Party, active, finished, run_party, run_parties, out_of_fuel, run_loop}
use round_based.Sim.Run.Outputs.{run_loop_more}

module _ {O M : Type 0} (S : StateMachine O M) where
  -- Each party has finished, or waits for a message while it has none.
  abbrev pub IsStuck : MessagesQueue M → ℕ → List (Party S) → Type 0
  IsStuck q i [] = Unit {0}
  IsStuck q i (finished _ ∷ ps) = IsStuck q (i + 1) ps
  IsStuck q i (active _ wants ∷ ps) =
      (wants ≡ true) × (get_or q.queue i [] ≡ []) × IsStuck q (i + 1) ps

  waits :
      (steps i : ℕ) (m : S.State) (q : MessagesQueue M)
      → get_or q.queue i [] ≡ []
      → run_party S (suc steps) i m true q ≡ some (ok (active m true, q))
  unfolding run_party recv_next_msg
  waits steps i m q e = rw (e, recv_next_msg)

  pass_stuck :
      (steps i : ℕ) (ps : List (Party S)) (q : MessagesQueue M)
      → IsStuck q i ps
      → run_parties S (suc steps) i ps q ≡ some (ok (ps, q, 0))
  unfolding run_parties
  pass_stuck steps i [] q h = refl
  pass_stuck steps i (finished o ∷ ps) q h = rw (pass_stuck steps (i + 1) ps q h)
  pass_stuck steps i (active m wants ∷ ps) q h =
      rw (h.0, waits steps i m q h.1, pass_stuck steps (i + 1) ps q h.2)

  -- Once a party is unfinished, and every unfinished party waits with no message queued for it,
  -- the loop goes on forever: however many rounds it is given, it ends with neither a result nor
  -- an error.
  pub run_loop-stuck :
      (rounds steps : ℕ) (ps : List (Party S)) (q : MessagesQueue M) (left : ℕ)
      → IsStuck q 0 ps
      → 0 < left
      → run_loop S rounds (suc steps) ps q left ≡ out_of_fuel
  run_loop-stuck zero steps ps q left h l = unfold run_loop in refl
  run_loop-stuck (suc rounds) steps ps q left h l =
      run_loop_more S rounds (suc steps) ps q left (ground arith)
      ∙ rw (pass_stuck steps 0 ps q h) (run_loop-stuck rounds steps ps q (left - 0) h (omega arith))
