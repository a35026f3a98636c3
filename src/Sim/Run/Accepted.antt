-- ===== src/Sim/Run/Accepted.antt =====
-- The parties of a simulation (round-based/src/sim/mod.rs) are given messages only when they can take
-- them.
use round_based.Prelude.{
  ℕ, zero, suc, ◌+◌, ◌-◌, ◌≡◌, ◌≢◌, refl, Bool, true, false, Option, none, some, List, [], ◌∷◌,
  Result, ok, err, length, arith, inl, inr, Bool-cases, ltb,
}
use round_based.Delivery.{
  Incoming, Outgoing, MessageDestination, all_parties, one_party, PartyIndex,
}
use round_based.StateMachine.Machine.{
  StateMachine, ProceedResult, send_msg, needs_one_more_message, output, yielded, error, Future,
  wrap_protocol, machine,
}
use round_based.StateMachine.Machine.Proceed.{IsConfined}
use round_based.StateMachine.SharedState.Invariant.{IsValid, new-IsValid}
use round_based.StateMachine.Polite.{IsPolite, machine-IsPolite}
use round_based.Sim.Queue.{
  MessagesQueue, SimError, save_incoming_msg, execution_error, unknown_recipient, send_message,
  dispatch, send_to_one, recv_next_msg,
}
use round_based.Sim.Run.{
  Party, active, finished, Turn, Pass, Outcome, out_of_fuel, panics, fails, succeeds, after_proceed,
  after_recv, run_party, run_parties, just_finished, ahead, then_parties, after_pass, finish,
  outputs, run_loop, run,
}
use round_based.Sim.Run.Outputs.{run_loop_over, run_loop_more}

abbrev is_save : SimError → Bool
is_save save_incoming_msg = true
is_save (execution_error _) = false
is_save (unknown_recipient _ _) = false

module _ {M : Type 0} where
  send_to_one-error :
      (q : MessagesQueue M) (sender destination : ℕ) (msg : M) (o : Option (List (Incoming M)))
      (e : SimError)
      → (send_to_one q sender msg destination o).1 ≡ err e
      → is_save e ≡ false
  unfolding send_to_one
  send_to_one-error q sender destination msg none e h = ground arith
  send_to_one-error q sender destination msg (some w) e h = ground arith

  dispatch-error :
      (q : MessagesQueue M) (sender : ℕ) (msg : M) (to : MessageDestination) (e : SimError)
      → (dispatch q sender msg to).1 ≡ err e
      → is_save e ≡ false
  unfolding dispatch
  dispatch-error q sender msg (all_parties reliable) e h = ground arith
  dispatch-error q sender msg (one_party destination) e h =
      send_to_one-error q sender destination msg _ e h

  -- Sending fails for want of a recipient only.
  send_message-error :
      (q : MessagesQueue M) (sender : ℕ) (out : Outgoing M) (e : SimError)
      → (send_message q sender out).1 ≡ err e
      → is_save e ≡ false
  unfolding send_message
  send_message-error q sender out e h = dispatch-error q sender out.msg out.recipient e h

module _ {O M : Type 0} (S : StateMachine O M) (polite : IsPolite S) where
  -- A party that is marked as wanting a message is ready for one.
  abbrev IsReady : S.State → Bool → Type 0
  IsReady m true = polite.Ready m
  IsReady m false = Unit {0}

  abbrev pub PartySound : Party S → Type 0
  PartySound (active m wants) = polite.Sound m × IsReady m wants
  PartySound (finished _) = Unit {0}

  abbrev pub AllSound : List (Party S) → Type 0
  AllSound [] = Unit {0}
  AllSound (p ∷ ps) = PartySound p × AllSound ps

  abbrev TurnSound : Turn S → Type 0
  TurnSound none = Unit {0}
  TurnSound (some (err e)) = is_save e ≡ false
  TurnSound (some (ok (p, q))) = PartySound p

  abbrev Again : Type 0
  Again = S.State → Bool → MessagesQueue M → Turn S

  sent-Sound :
      (again : Again) (m : S.State) (q : MessagesQueue M) (x : Result (Unit {0}) SimError)
      → ((e : SimError) → x ≡ err e → is_save e ≡ false)
      → TurnSound (again m false q)
      → TurnSound (elim x [ ok _ ↦ again m false q | err e ↦ some (err e) ])
  sent-Sound again m q (ok u) h t = t
  sent-Sound again m q (err e) h t = h e refl

  after_proceed-Sound :
      (i : PartyIndex) (again : Again) (q : MessagesQueue M) (m : S.State) (r : ProceedResult O M)
      → ((m : S.State) (wants : Bool) (q : MessagesQueue M)
          → polite.Sound m
          → IsReady m wants
          → TurnSound (again m wants q))
      → polite.Sound m
      → (r ≡ needs_one_more_message → polite.Ready m)
      → TurnSound (after_proceed S i again q (m, r))
  unfolding after_proceed
  after_proceed-Sound i again q m (send_msg out) h s ready =
      sent-Sound again m (send_message q i out).0 (send_message q i out).1
        (send_message-error q i out) (h m false _ s tt)
  after_proceed-Sound i again q m needs_one_more_message h s ready = h m true q s (ready refl)
  after_proceed-Sound i again q m (output o) h s ready = tt
  after_proceed-Sound i again q m yielded h s ready = h m false q s tt
  after_proceed-Sound i again q m (error e) h s ready = refl

  -- What the next turn must keep.
  abbrev Keeps : Again → Type 0
  Keeps again =
      (m : S.State) (wants : Bool) (q : MessagesQueue M)
      → polite.Sound m
      → IsReady m wants
      → TurnSound (again m wants q)

  proceeds-Sound :
      (i : PartyIndex) (again : Again) (q : MessagesQueue M) (m : S.State)
      → Keeps again
      → polite.Sound m
      → TurnSound (after_proceed S i again q (S.proceed m))
  proceeds-Sound i again q m h s =
      after_proceed-Sound i again q (S.proceed m).0 (S.proceed m).1 h (polite.proceeds m s)
        (polite.asks m s)

  saved-Sound :
      (x : Result (Unit {0}) (Incoming M)) (t : Turn S)
      → x ≡ ok tt
      → TurnSound t
      → TurnSound (elim x [ ok _ ↦ t | err _ ↦ some (err save_incoming_msg) ])
  saved-Sound (ok u) t e h = h
  saved-Sound (err m) t e h = ground arith

  after_recv-Sound :
      (i : PartyIndex) (again : Again) (m : S.State) (x : MessagesQueue M × Option (Incoming M))
      → Keeps again
      → polite.Sound m
      → polite.Ready m
      → TurnSound (after_recv S i again m x)
  unfolding after_recv
  after_recv-Sound i again m (q, none) h s ready = (s, ready)
  after_recv-Sound i again m (q, some msg) h s ready =
      saved-Sound (S.received_msg m msg).1 _ (polite.accepts m msg s ready)
        (proceeds-Sound i again q (S.received_msg m msg).0 h (polite.receives m msg s))

  run_party-Sound : (steps : ℕ) (i : PartyIndex) → Keeps (run_party S steps i)
  unfolding run_party
  run_party-Sound zero i m wants q s ready = tt
  run_party-Sound (suc steps) i m true q s ready =
      after_recv-Sound i (run_party S steps i) m (recv_next_msg q i) (run_party-Sound steps i) s
        ready
  run_party-Sound (suc steps) i m false q s ready =
      proceeds-Sound i (run_party S steps i) q m (run_party-Sound steps i) s

  abbrev PassSound : Pass S → Type 0
  PassSound none = Unit {0}
  PassSound (some (err e)) = is_save e ≡ false
  PassSound (some (ok (ps, q, n))) = AllSound ps

  ahead-Sound :
      (p : Party S) (k : ℕ) (r : Pass S) → PartySound p → PassSound r → PassSound (ahead S p k r)
  ahead-Sound p k none s h = tt
  ahead-Sound p k (some (err e)) s h = h
  ahead-Sound p k (some (ok (ps, q, n))) s h = (s, h)

  then_parties-Sound :
      (t : Turn S) (rest : MessagesQueue M → Pass S)
      → TurnSound t
      → ((q : MessagesQueue M) → PassSound (rest q))
      → PassSound (then_parties S t rest)
  then_parties-Sound none rest h r = tt
  then_parties-Sound (some (err e)) rest h r = h
  then_parties-Sound (some (ok (p, q))) rest h r =
      ahead-Sound p (just_finished S p) (rest q) h (r q)

  run_parties-Sound :
      (steps i : ℕ) (ps : List (Party S)) (q : MessagesQueue M)
      → AllSound ps
      → PassSound (run_parties S steps i ps q)
  unfolding run_parties
  run_parties-Sound steps i [] q h = tt
  run_parties-Sound steps i (finished o ∷ ps) q h =
      ahead-Sound (finished o) 0 _ tt (run_parties-Sound steps (i + 1) ps q h.1)
  run_parties-Sound steps i (active m wants ∷ ps) q h =
      then_parties-Sound (run_party S steps i m wants q) _
        (run_party-Sound steps i m wants q h.0.0 h.0.1)
        (λ q'. run_parties-Sound steps (i + 1) ps q' h.1)

  abbrev NotSaving : Outcome S → Type 0
  NotSaving out_of_fuel = Unit {0}
  NotSaving panics = Unit {0}
  NotSaving (fails e) = is_save e ≡ false
  NotSaving (succeeds _) = Unit {0}

  finish-NotSaving : (o : Option (List O)) → NotSaving (finish S o)
  finish-NotSaving none = tt
  finish-NotSaving (some os) = tt

  after_pass-NotSaving :
      (again : List (Party S) → MessagesQueue M → ℕ → Outcome S) (left : ℕ) (r : Pass S)
      → PassSound r
      → ((ps : List (Party S)) (q : MessagesQueue M) (n : ℕ)
          → AllSound ps
          → NotSaving (again ps q (left - n)))
      → NotSaving (after_pass S again left r)
  after_pass-NotSaving again left none h a = tt
  after_pass-NotSaving again left (some (err e)) h a = h
  after_pass-NotSaving again left (some (ok (ps, q, n))) h a = a ps q n h

  run_loop-NotSaving :
      (rounds steps : ℕ) (ps : List (Party S)) (q : MessagesQueue M) (left : ℕ)
      → AllSound ps
      → NotSaving (run_loop S rounds steps ps q left)
  run_loop-NotSaving zero steps ps q left h = unfold run_loop in tt
  run_loop-NotSaving (suc rounds) steps ps q left h = elim (Bool-cases (ltb 0 left)) [
    | inr over ↦ rw (run_loop_over S rounds steps ps q left over) (finish-NotSaving (outputs S ps))
    | inl more ↦ rw (run_loop_more S rounds steps ps q left more) (
        after_pass-NotSaving (run_loop S rounds steps) left _ (run_parties-Sound steps 0 ps q h)
          (λ ps' q' n h'. run_loop-NotSaving rounds steps ps' q' (left - n) h'))
  ]

  ne-save : (x : Outcome S) → NotSaving x → x ≢ fails save_incoming_msg
  ne-save out_of_fuel h e = ground arith
  ne-save panics h e = ground arith
  ne-save (fails save_incoming_msg) h e = ground arith
  ne-save (fails (execution_error _)) h e = ground arith
  ne-save (fails (unknown_recipient _ _)) h e = ground arith
  ne-save (succeeds _) h e = ground arith

  -- A simulation of polite machines that starts with sound parties never fails because a party
  -- refuses a message that it asked for.
  run-ne-save_incoming_msg :
      (rounds steps : ℕ) (ps : List (Party S))
      → AllSound ps
      → run S rounds steps ps ≢ fails save_incoming_msg
  unfolding run
  run-ne-save_incoming_msg rounds steps ps h =
      ne-save _ (run_loop-NotSaving rounds steps ps _ (length ps) h)

module _ {O M : Type 0} (F : Future O M) (confined : IsConfined F) where
  -- The parties of a simulation, one for each protocol's future.
  abbrev pub wrapped : List F.State → List (Party (machine F))
  wrapped [] = []
  wrapped (f ∷ fs) = active (wrap_protocol F f) false ∷ wrapped fs

  wrap_protocol-IsValid : (f : F.State) → IsValid (wrap_protocol F f).shared_state
  unfolding wrap_protocol
  wrap_protocol-IsValid f = new-IsValid

  wrapped-AllSound :
      (fs : List F.State) → AllSound (machine F) (machine-IsPolite F confined).0 (wrapped fs)
  wrapped-AllSound [] = tt
  wrapped-AllSound (f ∷ fs) =
      (((machine-IsPolite F confined).1 _ (wrap_protocol-IsValid f), tt), wrapped-AllSound fs)

  -- A simulation of wrapped protocols, each confined to its delivery and runtime, never fails because
  -- a party refuses a message, whatever the protocols do and however long it runs.
  pub run-wrapped-ne-save_incoming_msg :
      (rounds steps : ℕ) (fs : List F.State)
      → run (machine F) rounds steps (wrapped fs) ≢ fails save_incoming_msg
  run-wrapped-ne-save_incoming_msg rounds steps fs =
      run-ne-save_incoming_msg (machine F) (machine-IsPolite F confined).0 rounds steps (wrapped fs)
        (wrapped-AllSound fs)
