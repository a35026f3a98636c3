-- ===== src/Sim/Run/Bounded.antt =====
-- How much nearer one pass of a simulation (round-based/src/sim/mod.rs) brings machines that can be asked
-- to proceed only so often to their ends.
use round_based.Prelude.{
  ℕ, zero, suc, ◌+◌, ◌≤◌, ◌<◌, ◌≡◌, ◌⊎◌, refl, sym, subst, inl, inr, Bool, true, false, some, List,
  [], ◌∷◌, Result, ok, err, get_or, arith,
}
use round_based.Delivery.{Incoming, PartyIndex}
use round_based.StateMachine.Machine.{
  ExecutionError, StateMachine, ProceedResult, send_msg, needs_one_more_message, output, yielded,
  error,
}
use round_based.Sim.Queue.{MessagesQueue, SimError, save_incoming_msg, send_message, recv_next_msg}
use round_based.Sim.Run.{
  Party, active, finished, Turn, Pass, after_proceed, after_recv, run_party, run_parties,
  just_finished, ahead, then_parties,
}
use round_based.Sim.Run.Deadlock.{IsStuck}

-- An upper bound on the calls of `proceed` that a machine takes until it puts out its result or an
-- error. Being given a message does not raise it.
pub record IsBounded {O M : Type 0} (S : StateMachine O M) : Type 0 where
  pub calls : S.State → ℕ
  pub ends :
      (m : S.State)
      → ((o : O) × ((S.proceed m).1 ≡ output o))
        ⊎ ((calls (S.proceed m).0 < calls m) ⊎ ((e : ExecutionError) × ((S.proceed m).1 ≡ error e)))
  pub receives : (m : S.State) (msg : Incoming M) → calls (S.received_msg m msg).0 ≤ calls m

module _ {O M : Type 0} (S : StateMachine O M) (bounded : IsBounded S) where
  abbrev pub weight : Party S → ℕ
  weight (active m wants) = suc (bounded.calls m)
  weight (finished o) = 0

  -- The calls that all parties can take.
  abbrev pub total : List (Party S) → ℕ
  total [] = 0
  total (p ∷ ps) = weight p + total ps

  -- A turn of party `i` fails, or brings it nearer to its end, or leaves everything as it was, where
  -- the party waits and has no message.
  data Turned (i : PartyIndex) (m : S.State) (wants : Bool) (q : MessagesQueue M)
      : Turn S → Type 0 where
    failed : (e : SimError) → Turned i m wants q (some (err e))
    moved :
        (p : Party S) (q' : MessagesQueue M)
        → weight p < suc (bounded.calls m)
        → Turned i m wants q (some (ok (p, q')))
    waited :
        wants ≡ true → get_or q.queue i [] ≡ [] → Turned i m wants q (some (ok (active m true, q)))

  abbrev Again : Type 0
  Again = S.State → Bool → MessagesQueue M → Turn S

  -- The turns of the loop behind a call of `proceed`.
  later :
      (i : PartyIndex) (m m1 : S.State) (wants w1 : Bool) (q q1 : MessagesQueue M) (t : Turn S)
      → bounded.calls m1 < bounded.calls m
      → Turned i m1 w1 q1 t
      → Turned i m wants q t
  later i m m1 wants w1 q q1 _ less (failed e) = failed e
  later i m m1 wants w1 q q1 _ less (moved p q' near) = moved p q' (omega arith)
  later i m m1 wants w1 q q1 _ less (waited _ _) = moved (active m1 true) q1 (omega arith)

  abbrev Ends : S.State → S.State × ProceedResult O M → Type 0
  Ends m x =
      ((o : O) × (x.1 ≡ output o))
      ⊎ ((bounded.calls x.0 < bounded.calls m) ⊎ ((e : ExecutionError) × (x.1 ≡ error e)))

  at_most :
      (m m' : S.State)
      → bounded.calls m' ≤ bounded.calls m
      → Ends m' (S.proceed m')
      → Ends m (S.proceed m')
  at_most m m' kept e = elim e [
    | inl o ↦ inl o
    | inr (inl less) ↦ inr (inl (omega arith))
    | inr (inr x) ↦ inr (inr x)
  ]

  sent-Turned :
      (i : PartyIndex) (m : S.State) (wants : Bool) (q : MessagesQueue M)
      (x : Result (Unit {0}) SimError) (t : Turn S)
      → Turned i m wants q t
      → Turned i m wants q (elim x [ ok _ ↦ t | err e ↦ some (err e) ])
  sent-Turned i m wants q (ok u) t h = h
  sent-Turned i m wants q (err e) t h = failed e

  after_proceed-Turned :
      (i : PartyIndex) (m : S.State) (wants : Bool) (q q1 : MessagesQueue M) (again : Again)
      (m1 : S.State) (r : ProceedResult O M)
      → Ends m (m1, r)
      → ((w : Bool) (q2 : MessagesQueue M)
          → bounded.calls m1 < bounded.calls m
          → Turned i m1 w q2 (again m1 w q2))
      → Turned i m wants q (after_proceed S i again q1 (m1, r))
  unfolding after_proceed
  after_proceed-Turned i m wants q q1 again m1 (send_msg out) e h = elim e [
    | inl (o, not_so) ↦ ground arith
    | inr (inr (x, not_so)) ↦ ground arith
    | inr (inl less) ↦ sent-Turned i m wants q (send_message q1 i out).1 _ (
        later i m m1 wants false q (send_message q1 i out).0 _ less
          (h false (send_message q1 i out).0 less))
  ]
  after_proceed-Turned i m wants q q1 again m1 needs_one_more_message e h = elim e [
    | inl (o, not_so) ↦ ground arith
    | inr (inr (x, not_so)) ↦ ground arith
    | inr (inl less) ↦ later i m m1 wants true q q1 _ less (h true q1 less)
  ]
  after_proceed-Turned i m wants q q1 again m1 (output o) e h = moved (finished o) q1 (omega arith)
  after_proceed-Turned i m wants q q1 again m1 yielded e h = elim e [
    | inl (o, not_so) ↦ ground arith
    | inr (inr (x, not_so)) ↦ ground arith
    | inr (inl less) ↦ later i m m1 wants false q q1 _ less (h false q1 less)
  ]
  after_proceed-Turned i m wants q q1 again m1 (error x) e h = failed _

  saved-Turned :
      (i : PartyIndex) (m : S.State) (wants : Bool) (q : MessagesQueue M)
      (x : Result (Unit {0}) (Incoming M)) (t : Turn S)
      → Turned i m wants q t
      → Turned i m wants q (elim x [ ok _ ↦ t | err _ ↦ some (err save_incoming_msg) ])
  saved-Turned i m wants q (ok u) t h = h
  saved-Turned i m wants q (err e) t h = failed save_incoming_msg

  -- The delivery of a message, by what the party's queue holds.
  after_recv-Turned :
      (i : PartyIndex) (m : S.State) (q : MessagesQueue M) (again : Again) (l : List (Incoming M))
      → get_or q.queue i [] ≡ l
      → ((m1 : S.State) (w : Bool) (q2 : MessagesQueue M)
          → bounded.calls m1 < bounded.calls m
          → Turned i m1 w q2 (again m1 w q2))
      → Turned i m true q (after_recv S i again m (recv_next_msg q i))
  unfolding after_recv recv_next_msg
  after_recv-Turned i m q again [] e h = rw (e, recv_next_msg) (waited refl e)
  after_recv-Turned i m q again (msg ∷ rest) e h =
      let m' = (S.received_msg m msg).0 in
      rw (e, recv_next_msg)
        (saved-Turned i m true q (S.received_msg m msg).1 _ (
          after_proceed-Turned i m true q _ again (S.proceed m').0 (S.proceed m').1
            (at_most m m' (bounded.receives m msg) (bounded.ends m')) (h (S.proceed m').0)))

  -- A turn does not meet its bound if that exceeds the calls that the party can take.
  run_party-Turned :
      (steps : ℕ) (i : PartyIndex) (m : S.State) (wants : Bool) (q : MessagesQueue M)
      → bounded.calls m < steps
      → Turned i m wants q (run_party S steps i m wants q)
  unfolding run_party
  run_party-Turned zero i m wants q fits = absurd (omega arith)
  run_party-Turned (suc steps) i m false q fits =
      after_proceed-Turned i m false q q (run_party S steps i) (S.proceed m).0 (S.proceed m).1
        (bounded.ends m) (λ w q2 less. run_party-Turned steps i (S.proceed m).0 w q2 (omega arith))
  run_party-Turned (suc steps) i m true q fits =
      after_recv-Turned i m q (run_party S steps i) (get_or q.queue i []) refl
        (λ m1 w q2 less. run_party-Turned steps i m1 w q2 (omega arith))

  -- The same of a pass over the parties from `i` on.
  pub data Passed (i : PartyIndex) (ps : List (Party S)) (q : MessagesQueue M)
      : Pass S → Type 0 where
    pass_failed : (e : SimError) → Passed i ps q (some (err e))
    pass_moved :
        (ps' : List (Party S)) (q' : MessagesQueue M) (n : ℕ)
        → total ps' < total ps
        → Passed i ps q (some (ok (ps', q', n)))
    pass_waited : IsStuck S q i ps → Passed i ps q (some (ok (ps, q, 0)))

  behind_moved :
      (i k : ℕ) (p p' : Party S) (ps : List (Party S)) (q q' : MessagesQueue M) (r : Pass S)
      → weight p' < weight p
      → Passed (i + 1) ps q' r
      → Passed i (p ∷ ps) q (ahead S p' k r)
  behind_moved i k p p' ps q q' _ less (pass_failed e) = pass_failed e
  behind_moved i k p p' ps q q' _ less (pass_moved ps' q2 n near) =
      pass_moved (p' ∷ ps') q2 (k + n) (omega arith)
  behind_moved i k p p' ps q q' _ less (pass_waited h) =
      pass_moved (p' ∷ ps) q' (k + 0) (omega arith)

  behind_finished :
      (i : ℕ) (o : O) (ps : List (Party S)) (q : MessagesQueue M) (r : Pass S)
      → Passed (i + 1) ps q r
      → Passed i (finished o ∷ ps) q (ahead S (finished o) 0 r)
  behind_finished i o ps q _ (pass_failed e) = pass_failed e
  behind_finished i o ps q _ (pass_moved ps' q' n near) =
      pass_moved (finished o ∷ ps') q' (0 + n) (omega arith)
  behind_finished i o ps q _ (pass_waited h) = pass_waited h

  behind_waited :
      (i : ℕ) (m : S.State) (ps : List (Party S)) (q : MessagesQueue M) (r : Pass S)
      → get_or q.queue i [] ≡ []
      → Passed (i + 1) ps q r
      → Passed i (active m true ∷ ps) q (ahead S (active m true) 0 r)
  behind_waited i m ps q _ e (pass_failed x) = pass_failed x
  behind_waited i m ps q _ e (pass_moved ps' q' n near) =
      pass_moved (active m true ∷ ps') q' (0 + n) (omega arith)
  behind_waited i m ps q _ e (pass_waited h) = pass_waited (refl, e, h)

  turn_Passed :
      (i : ℕ) (m : S.State) (wants : Bool) (ps : List (Party S)) (q : MessagesQueue M) (t : Turn S)
      (others : MessagesQueue M → Pass S)
      → Turned i m wants q t
      → ((q' : MessagesQueue M) → Passed (i + 1) ps q' (others q'))
      → Passed i (active m wants ∷ ps) q (then_parties S t others)
  turn_Passed i m wants ps q _ others (failed e) h = pass_failed e
  turn_Passed i m wants ps q _ others (moved p q' near) h =
      behind_moved i (just_finished S p) (active m wants) p ps q q' (others q') near (h q')
  turn_Passed i m wants ps q _ others (waited w e) h =
      subst (λ x. Passed i (active m x ∷ ps) q (ahead S (active m true) 0 (others q))) (sym w)
        (behind_waited i m ps q (others q) e (h q))

  pub run_parties-Passed :
      (steps i : ℕ) (ps : List (Party S)) (q : MessagesQueue M)
      → total ps ≤ steps
      → Passed i ps q (run_parties S steps i ps q)
  unfolding run_parties
  run_parties-Passed steps i [] q fits = pass_waited tt
  run_parties-Passed steps i (finished o ∷ ps) q fits =
      behind_finished i o ps q _ (run_parties-Passed steps (i + 1) ps q (omega arith))
  run_parties-Passed steps i (active m wants ∷ ps) q fits =
      turn_Passed i m wants ps q (run_party S steps i m wants q) _
        (run_party-Turned steps i m wants q (omega arith))
        (λ q'. run_parties-Passed steps (i + 1) ps q' (omega arith))
