-- ===== src/Sim/Run.antt =====
-- `Simulation` of round-based/src/sim/mod.rs. The loops may run forever, so `steps` bounds the turns
-- of the inner loop for one party and `rounds` those of the outer one; `none` means that a bound was
-- met before the source's loop ended.
pub mod Outputs
pub mod Deadlock
pub mod Accepted
pub mod Bounded
pub mod Ends
pub mod Setup
use round_based.Prelude.{
  ℕ, zero, suc, ◌+◌, ◌-◌, Bool, true, false, Option, none, some, List, [], ◌∷◌, ◌++◌, Result, ok,
  err, length, ltb, if◌then◌else◌,
}
use round_based.Delivery.{Incoming, PartyIndex}
use round_based.StateMachine.Machine.{
  StateMachine, ProceedResult, send_msg, needs_one_more_message, output, yielded, error,
}
use round_based.Sim.Queue.{
  MessagesQueue, SimError, save_incoming_msg, execution_error, send_message, recv_next_msg,
}
use round_based.Sim.Queue

module _ {O M : Type 0} (S : StateMachine O M) where
  pub data Party : Type 0 where
    active : S.State → Bool → Party
    finished : O → Party

  -- `Simulation::add_party`
  unfoldable add_party : List Party → S.State → List Party
  add_party parties m = parties ++ active m false ∷ []

  -- `Simulation::from_fn`, and `run_with_setup`: party `i` is made from the number `i` by `init`.
  unfoldable from_fn : ℕ → ℕ → (ℕ → S.State) → List Party
  from_fn zero i init = []
  from_fn (suc n) i init = active (init i) false ∷ from_fn n (i + 1) init

  abbrev pub Turn : Type 0
  Turn = Option (Result (Party × MessagesQueue M) SimError)

  -- The match on `party.proceed()`; `again` is the next turn of the loop `'this_party`.
  unfoldable pub after_proceed :
      PartyIndex
      → (S.State → Bool → MessagesQueue M → Turn)
      → MessagesQueue M
      → S.State × ProceedResult O M
      → Turn
  after_proceed i again q (m, send_msg out) =
      let (q', sent) = send_message q i out in
      elim sent [ ok _ ↦ again m false q' | err e ↦ some (err e) ]
  after_proceed i again q (m, needs_one_more_message) = again m true q
  after_proceed i again q (m, output o) = some (ok (finished o, q))
  after_proceed i again q (m, yielded) = again m false q
  after_proceed i again q (m, error e) = some (err (execution_error e))

  -- The delivery of a message that the party asked for.
  unfoldable pub after_recv :
      PartyIndex
      → (S.State → Bool → MessagesQueue M → Turn)
      → S.State
      → MessagesQueue M × Option (Incoming M)
      → Turn
  unfolding after_proceed
  after_recv i again m (q, none) = some (ok (active m true, q))
  after_recv i again m (q, some msg) =
      let (m', saved) = S.received_msg m msg in
      elim saved [
        | ok _ ↦ after_proceed i again q (S.proceed m')
        | err _ ↦ some (err save_incoming_msg)
      ]

  -- The loop `'this_party`.
  unfoldable pub run_party : ℕ → PartyIndex → S.State → Bool → MessagesQueue M → Turn
  unfolding after_recv
  run_party zero i m wants q = none
  run_party (suc steps) i m true q = after_recv i (run_party steps i) m (recv_next_msg q i)
  run_party (suc steps) i m false q = after_proceed i (run_party steps i) q (S.proceed m)

  -- How many parties the turn of `party` finished.
  abbrev pub just_finished : Party → ℕ
  just_finished (active _ _) = 0
  just_finished (finished _) = 1

  abbrev pub Pass : Type 0
  Pass = Option (Result (List Party × MessagesQueue M × ℕ) SimError)

  -- Puts a party in front of what the loop makes of the parties behind it; the number counts those
  -- that finished.
  abbrev pub ahead : Party → ℕ → Pass → Pass
  ahead p k none = none
  ahead p k (some (err e)) = some (err e)
  ahead p k (some (ok (ps, q, n))) = some (ok (p ∷ ps, q, k + n))

  abbrev pub then_parties : Turn → (MessagesQueue M → Pass) → Pass
  then_parties none others = none
  then_parties (some (err e)) others = some (err e)
  then_parties (some (ok (p, q))) others = ahead p (just_finished p) (others q)

  -- The loop `'next_party`, from the party with index `i`.
  unfoldable pub run_parties : ℕ → PartyIndex → List Party → MessagesQueue M → Pass
  unfolding run_party
  run_parties steps i [] q = some (ok ([], q, 0))
  run_parties steps i (finished o ∷ ps) q = ahead (finished o) 0 (run_parties steps (i + 1) ps q)
  run_parties steps i (active m wants ∷ ps) q =
      then_parties (run_party steps i m wants q) (λ q'. run_parties steps (i + 1) ps q')

  -- The outputs; `none` is the panic at a party that is still active.
  unfoldable pub outputs : List Party → Option (List O)
  outputs [] = some []
  outputs (active _ _ ∷ ps) = none
  outputs (finished o ∷ ps) = elim (outputs ps) [ none ↦ none | some os ↦ some (o ∷ os) ]

  pub data Outcome : Type 0 where
    out_of_fuel : Outcome
    panics : Outcome
    fails : SimError → Outcome
    succeeds : List O → Outcome

  abbrev pub finish : Option (List O) → Outcome
  finish none = panics
  finish (some os) = succeeds os

  abbrev pub after_pass : (List Party → MessagesQueue M → ℕ → Outcome) → ℕ → Pass → Outcome
  after_pass again parties_left none = out_of_fuel
  after_pass again parties_left (some (err e)) = fails e
  after_pass again parties_left (some (ok (parties, q, n))) = again parties q (parties_left - n)

  -- The loop `while parties_left > 0`.
  unfoldable pub run_loop : ℕ → ℕ → List Party → MessagesQueue M → ℕ → Outcome
  unfolding run_parties outputs
  run_loop zero steps parties q parties_left = out_of_fuel
  run_loop (suc rounds) steps parties q parties_left = elim (ltb 0 parties_left) [
    | false ↦ finish (outputs parties)
    | true ↦ after_pass (run_loop rounds steps) parties_left (run_parties steps 0 parties q)
  ]

  unfoldable pub run : ℕ → ℕ → List Party → Outcome
  unfolding run_loop
  run rounds steps parties =
      run_loop rounds steps parties (Queue.new M (length parties)) (length parties)
