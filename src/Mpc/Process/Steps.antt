-- ===== src/Mpc/Process/Steps.antt =====
-- What a registered round (round-based/src/mpc/party/router.rs, `ProcessRoundMessageImpl`) can become.
use round_based.Prelude.{
  ◌≡◌, refl, sym, ◌∙◌, inl, inr, true, false, List, [], ◌∷◌, Result, ok, err, map_err, Bool-cases,
  arith, if◌then◌else◌,
}
use round_based.Delivery.{Incoming}
use round_based.Round.Store.{RoundStore, IsProper}
use round_based.Mpc.Errors.{process_msg, router, io, unexpected_eof}
use round_based.Mpc.Protocol.{Protocol, IsLawful}
use round_based.Mpc.Process.{
  ProcessRoundMessageImpl, in_progress, completed, gone, store_output, new, needs_more_messages,
  take_output, process_in_store, after_message, process_message,
}

-- A round in progress has a store that wants more messages, and a completed one has an output or an
-- error of its store: never a report of a bug or of an improper store.
abbrev pub IsSound : (S : RoundStore) → ProcessRoundMessageImpl S → Type 0
IsSound S (in_progress store) = S.wants_more store ≡ true
IsSound S (completed (ok _)) = Unit {0}
IsSound S (completed (err (process_msg _))) = Unit {0}
IsSound S (completed (err (router _))) = ⊥
IsSound S (completed (err (io _))) = ⊥
IsSound S (completed (err unexpected_eof)) = ⊥
IsSound S gone = Unit {0}

module _ (S : RoundStore) (proper : IsProper S) where
  over-IsSound :
      (store : S.Store)
      → IsSound S
          (if S.wants_more store then in_progress store else completed (store_output S store))
  over-IsSound store = elim (Bool-cases (S.wants_more store)) [
    | inl more ↦ rw more more
    | inr over ↦ let (o, e) = proper.outputs store over in rw (over, e) tt
  ]

  pub new-IsSound : (store : S.Store) → IsSound S (new S store)
  unfolding new
  new-IsSound store = over-IsSound store

  pub take_output-IsSound :
      (p : ProcessRoundMessageImpl S) → IsSound S p → IsSound S (take_output S p).0
  unfolding take_output
  take_output-IsSound (in_progress store) h = h
  take_output-IsSound (completed result) h = tt
  take_output-IsSound gone h = tt

module _ (P : Protocol) (lawful : IsLawful P) (r : P.R) (proper : IsProper (P.store r)) where
  after_message-IsSound :
      (store : (P.store r).Store) (result : Result (Unit {0}) (P.store r).Error)
      → IsSound (P.store r) (after_message P r (store, map_err process_msg result))
  unfolding after_message
  after_message-IsSound store (ok u) = over-IsSound (P.store r) proper store
  after_message-IsSound store (err e) = tt

  -- In a lawful protocol, and for a store that has an output once it wants no more messages, a
  -- message of the round itself keeps the round sound: in progress while the store wants more,
  -- else completed with an output or an error of the store, never with a report of a bug.
  pub process_message-IsSound :
      (p : ProcessRoundMessageImpl (P.store r)) (m : Incoming P.Msg)
      → P.round m.msg ≡ P.round_number r
      → IsSound (P.store r) p
      → IsSound (P.store r) (process_message P r p m)
  unfolding process_message
  process_message-IsSound (in_progress store) m e h =
      let (x, q) = lawful.from_round r m.msg e in
      rw (q, process_in_store) (after_message-IsSound _ _)
  process_message-IsSound (completed result) m e h = h
  process_message-IsSound gone m e h = h

module _ (P : Protocol) (r : P.R) where
  abbrev pub process_all :
      ProcessRoundMessageImpl (P.store r)
      → List (Incoming P.Msg)
      → ProcessRoundMessageImpl (P.store r)
  process_all p [] = p
  process_all p (m ∷ ms) = process_all (process_message P r p m) ms

  -- A round that needs no more messages ignores what it is given.
  pub process_message-over :
      (p : ProcessRoundMessageImpl (P.store r)) (m : Incoming P.Msg)
      → needs_more_messages (P.store r) p ≡ false
      → process_message P r p m ≡ p
  unfolding process_message needs_more_messages
  process_message-over (in_progress store) m h = cc
  process_message-over (completed result) m h = refl
  process_message-over gone m h = refl

  process_all-over :
      (p : ProcessRoundMessageImpl (P.store r)) (ms : List (Incoming P.Msg))
      → needs_more_messages (P.store r) p ≡ false
      → process_all p ms ≡ p
  process_all-over p [] h = refl
  process_all-over p (m ∷ ms) h = rw (process_message-over p m h) (process_all-over p ms h)

  -- Only a round in progress is in progress after further messages.
  pub process_all-in_progress :
      (p : ProcessRoundMessageImpl (P.store r)) (ms : List (Incoming P.Msg)) (s : (P.store r).Store)
      → process_all p ms ≡ in_progress s
      → (s0 : (P.store r).Store) × (p ≡ in_progress s0)
  unfolding needs_more_messages
  process_all-in_progress (in_progress store) ms s h = (store, refl)
  process_all-in_progress (completed result) ms s h =
      absurd (ground (arith, sym (process_all-over (completed result) ms refl) ∙ h))
  process_all-in_progress gone ms s h =
      absurd (ground (arith, sym (process_all-over gone ms refl) ∙ h))
