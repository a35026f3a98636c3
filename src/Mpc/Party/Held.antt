-- ===== src/Mpc/Party/Held.antt =====
-- An invariant of one round's store, kept by the messages that `RoundsRouter::received_msg` of
-- round-based/src/mpc/party/router.rs routes to it.
use mathlib.Core.Option
use round_based.Prelude.{
  ℕ, ◌≡◌, ◌≢◌, ap, ◌∙◌, inl, inr, Option, none, some, List, [], ◌∷◌, Result, ok, err, ◌==◌, ==_ne,
  Bool-cases, Option-cases, get_elem?, if◌then◌else◌, Result-cases,
}
use round_based.Delivery.{Incoming}
use round_based.Mpc.Errors.{CompleteRoundError}
use round_based.Mpc.Protocol.{Protocol}
use round_based.Mpc.Process.{
  ProcessRoundMessageImpl, in_progress, completed, gone, process_message, process_in_store,
  after_message, store_output, new, needs_more_messages,
}
use round_based.Mpc.Process.Steps.{process_all}
use round_based.Mpc.Router.{Boxed, RoundsRouter, lookup, insert, received_msg, complete_round}
use round_based.Mpc.Router.Rounds.{lookup-insert}
use round_based.Mpc.Router.Routing.{receive_all, messages_of, absorb, lookup-receive_all}

module _ (P : Protocol) (A : Incoming P.Msg → Type 0) where
  -- The stream yields only messages that satisfy `A`.
  abbrev pub AllSent : {E : Type 0} → List (Result (Incoming P.Msg) E) → Type 0
  AllSent items = (k : ℕ) (m : Incoming P.Msg) → get_elem? items k ≡ some (ok m) → A m

  -- The store of a round was fed with such messages only.
  module _ (r : P.R) (Inv : (P.store r).Store → Type 0) where
    pub record IsKept : Type 0 where
      pub fed :
          (s : (P.store r).Store) (m : Incoming P.Msg)
          → A m
          → Inv s
          → Inv (process_in_store P r s m).0

    abbrev pub FromStore : (P.store r).Output → Type 0
    FromStore o = (s : (P.store r).Store) × Inv s × ((P.store r).output s ≡ ok o)

    abbrev pub Holds : ProcessRoundMessageImpl (P.store r) → Type 0
    Holds (in_progress s) = Inv s
    Holds (completed (ok o)) = FromStore o
    Holds (completed (err _)) = Unit {0}
    Holds gone = Unit {0}

    abbrev pub HoldsAt : RoundsRouter P → Type 0
    HoldsAt router =
        (p : ProcessRoundMessageImpl (P.store r)) × (lookup (P.round_number r) router.rounds
          ≡ some (some (record { kind = r; round = p })))
        × Holds p

    store_output-Holds :
        (s : (P.store r).Store) → Inv s → Holds (completed (store_output (P.store r) s))
    store_output-Holds s h = elim (Result-cases ((P.store r).output s)) [
      | inl (o, e) ↦ rw e (s, h, e)
      | inr (s', e) ↦ rw e tt
    ]

    pub settled-Holds :
        (s : (P.store r).Store)
        → Inv s
        → Holds (
            if (P.store r).wants_more s
            then in_progress s
            else completed (store_output (P.store r) s))
    settled-Holds s h = elim (Bool-cases ((P.store r).wants_more s)) [
      | inl more ↦ rw more h
      | inr over ↦ rw over (store_output-Holds s h)
    ]

    pub new-Holds : (s : (P.store r).Store) → Inv s → Holds (new (P.store r) s)
    unfolding new
    new-Holds s h = settled-Holds s h

    -- Another round's completion does not touch this one.
    insert-HoldsAt :
        (router : RoundsRouter P) (k : ℕ) (b : Option (Boxed P))
        → k ≢ P.round_number r
        → HoldsAt router
        → HoldsAt (record { rounds = insert k b router.rounds })
    insert-HoldsAt router k b ne (p, at, h) =
        (p, lookup-insert (P.round_number r) k b router.rounds ∙ rw (==_ne k _ ne) at, h)

    pub complete_other-HoldsAt :
        (router : RoundsRouter P) (other : P.R)
        → P.round_number other ≢ P.round_number r
        → HoldsAt router
        → HoldsAt (complete_round P router other).0
    unfolding complete_round
    complete_other-HoldsAt router other ne h =
        elim (Option-cases (lookup (P.round_number other) router.rounds)) [
          | inl e ↦ rw (e, complete_round) h
          | inr (none, e) ↦ rw (e, complete_round) h
          | inr (some b, e) ↦ elim (Bool-cases (needs_more_messages (P.store b.kind) b.round)) [
            | inl more ↦ rw (e, complete_round) (rw more h)
            | inr over ↦
                rw (e, complete_round)
                  (rw over (insert-HoldsAt router (P.round_number other) _ ne h))
          ]
        ]

    module _ (kept : IsKept) where
      after_message-Holds :
          (x : (P.store r).Store × Result (Unit {0}) (CompleteRoundError (P.store r).Error ⊥))
          → Inv x.0
          → Holds (after_message P r x)
      unfolding after_message
      after_message-Holds (s, ok _) h = settled-Holds s h
      after_message-Holds (s, err e) h = tt

      process_message-Holds :
          (p : ProcessRoundMessageImpl (P.store r)) (m : Incoming P.Msg)
          → A m
          → Holds p
          → Holds (process_message P r p m)
      unfolding process_message
      process_message-Holds (in_progress s) m a h = after_message-Holds _ (kept.fed s m a h)
      process_message-Holds (completed x) m a h = h
      process_message-Holds gone m a h = h

      process_own-Holds :
          (p : ProcessRoundMessageImpl (P.store r)) (m : Incoming P.Msg)
          → A m
          → Holds p
          → Holds (process_all P r p (messages_of P (P.round_number r) (m ∷ [])))
      process_own-Holds p m a h = elim (Bool-cases (P.round m.msg == P.round_number r)) [
        | inl here ↦ rw here (process_message-Holds p m a h)
        | inr there ↦ rw there h
      ]

      pub received_msg-HoldsAt :
          (router : RoundsRouter P) (m : Incoming P.Msg)
          → A m
          → HoldsAt router
          → HoldsAt (received_msg P router m).0
      unfolding receive_all
      received_msg-HoldsAt router m a (p, at, h) =
          let k = P.round_number r in
          (
            process_all P r p (messages_of P k (m ∷ [])),
            lookup-receive_all P router (m ∷ []) k
                ∙ ap (Option.map (Option.map (absorb P (messages_of P k (m ∷ []))))) at,
            process_own-Holds p m a h,
          )
