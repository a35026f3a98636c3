-- ===== src/Sim/Run/Ends.antt =====
-- When a simulation (round-based/src/sim/mod.rs) ends: machines that can be asked to proceed only so
-- often either bring it to an outcome, or wait for one another forever.
use round_based.Prelude.{ℕ, ◌-◌, ◌<◌, ◌≡◌, ◌≢◌, ◌⊎◌, true, some, List, ok, ltb}
use round_based.StateMachine.Machine.{StateMachine}
use round_based.Sim.Queue.{MessagesQueue, SimError, save_incoming_msg, send_message, recv_next_msg}
use round_based.Sim.Queue
use round_based.Sim.Run.{Party, out_of_fuel, run_parties, run_loop}
use round_based.Sim.Run.Outputs.{active_parties}
use round_based.Sim.Run.Deadlock.{IsStuck}

module _ {O M : Type 0} (S : StateMachine O M) where
  -- Passes of the loop `while parties_left > 0` lead from one state of it to another.
  pub data Reaches (steps : ℕ)
      : List (Party S) → MessagesQueue M → ℕ → List (Party S) → MessagesQueue M → ℕ → Type 0 where
    here :
        (ps : List (Party S)) (q : MessagesQueue M) (left : ℕ) → Reaches steps ps q left ps q left
    after :
        (ps ps1 ps' : List (Party S)) (q q1 q' : MessagesQueue M) (left n left' : ℕ)
        → ltb 0 left ≡ true
        → run_parties S steps 0 ps q ≡ some (ok (ps1, q1, n))
        → Reaches steps ps1 q1 (left - n) ps' q' left'
        → Reaches steps ps q left ps' q' left'

  -- The loop comes to a state with an unfinished party in which every unfinished party waits and has
  -- no message, and stays there forever.
  abbrev pub Deadlocks : ℕ → List (Party S) → MessagesQueue M → ℕ → Type 0
  Deadlocks steps ps q left =
      (ps' : List (Party S)) × (q' : MessagesQueue M) × (left' : ℕ) × Reaches steps ps q left ps' q'
        left'
      × IsStuck S q' 0 ps'
      × (0 < active_parties S ps')
      × ((rounds : ℕ) → run_loop S rounds steps ps q left ≡ out_of_fuel)

  abbrev Settles : ℕ → ℕ → List (Party S) → MessagesQueue M → ℕ → Type 0
  Settles rounds steps ps q left =
      (run_loop S rounds steps ps q left ≢ out_of_fuel) ⊎ Deadlocks steps ps q left
