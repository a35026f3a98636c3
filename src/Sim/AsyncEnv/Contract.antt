-- ===== src/Sim/AsyncEnv/Contract.antt =====
-- What round-based/src/sim/async_env.rs relies on of the broadcast channel of `tokio`: its documented
-- behaviour while no receiver is further behind than the channel's capacity and some receiver exists.
use round_based.Prelude.{ℕ, ◌+◌, ◌≤◌, ◌≡◌, some, List, [], ◌∷◌, ◌++◌, ok, get_elem?, length}
use round_based.StateMachine.SharedState.{ready, pending}
use round_based.Sim.AsyncEnv.{Channel}

-- Each receiver reads what was sent since it subscribed, in the order of the sends; it is pending
-- when it has read everything. The channel keeps at least `capacity` values.
pub record IsBroadcast {T : Type 0} (C : Channel T) : Type 1 where
  pub sent : C.State → List T
  pub capacity : C.State → ℕ
  pub position : C.Receiver → ℕ
  pub HasReceiver : C.State → Type 0
  pub channel_sent : (k : ℕ) → sent (C.channel k) ≡ []
  pub channel_capacity : (k : ℕ) → capacity (C.channel k) ≡ k
  pub subscribe_sent : (s : C.State) → sent (C.subscribe s).0 ≡ sent s
  pub subscribe_capacity : (s : C.State) → capacity (C.subscribe s).0 ≡ capacity s
  pub subscribe_position : (s : C.State) → position (C.subscribe s).1 ≡ length (sent s)
  pub subscribe_received : (s : C.State) → HasReceiver (C.subscribe s).0
  pub send_sent : (s : C.State) (x : T) → HasReceiver s → sent (C.send s x).0 ≡ sent s ++ x ∷ []
  pub send_ok : (s : C.State) (x : T) → HasReceiver s → (C.send s x).1 ≡ ok tt
  pub send_capacity : (s : C.State) (x : T) → capacity (C.send s x).0 ≡ capacity s
  pub send_received : (s : C.State) (x : T) → HasReceiver s → HasReceiver (C.send s x).0
  pub next_sent :
      (s : C.State) (r : C.Receiver) (x : T)
      → length (sent s) ≤ position r + capacity s
      → get_elem? (sent s) (position r) ≡ some x
      → ((C.poll_next s r).1 ≡ ready (some (ok x)))
        × (position (C.poll_next s r).0 ≡ position r + 1)
  pub next_pending :
      (s : C.State) (r : C.Receiver)
      → length (sent s) ≤ position r
      → ((C.poll_next s r).1 ≡ pending) × (position (C.poll_next s r).0 ≡ position r)
