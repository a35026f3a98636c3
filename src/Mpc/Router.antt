-- ===== src/Mpc/Router.antt =====
-- round-based/src/mpc/party/router.rs: `RoundsRouter` hands every message to the round that it
-- belongs to. The `BTreeMap` is an association list; a boxed round carries the name of its store type.
pub mod Rounds
pub mod Invariant
pub mod Routing
pub mod Retrieval
use round_based.Prelude.{
  ℕ, Bool, true, false, Option, none, some, List, [], ◌∷◌, Result, ok, err, ◌==◌, if◌then◌else◌,
}
use round_based.Delivery.{Incoming}
use round_based.Round.Store.{RoundStore}
use round_based.Mpc.Errors.{
  CompleteRoundError, from_bug, from_unregistered, UnregisteredRound, round_gone_but_witness_exists,
  take_round_result, mismatched_output_type, mismatched_error_type, TakeOutputError,
}
use round_based.Mpc.Protocol.{Protocol}
use round_based.Mpc.Process.{
  ProcessRoundMessageImpl, RoundResult, new, needs_more_messages, take_output, process_message,
}

-- `BTreeMap::get` and `BTreeMap::insert`.
module _ {ℓ} {V : Type ℓ} where
  unfoldable pub lookup : ℕ → List (ℕ × V) → Option V
  lookup k [] = none
  lookup k ((j, v) ∷ m) = if j == k then some v else lookup k m

  unfoldable pub insert : ℕ → V → List (ℕ × V) → List (ℕ × V)
  insert k v [] = (k, v) ∷ []
  insert k v ((j, w) ∷ m) = if j == k then (k, v) ∷ m else (j, w) ∷ insert k v m

module _ (P : Protocol) where
  -- `Box<dyn ProcessRoundMessage<Msg = M>>`
  pub record Boxed : Type 0 where
    pub kind : P.R
    pub round : ProcessRoundMessageImpl (P.store kind)

  pub record RoundsRouter : Type 0 where
    pub rounds : List (ℕ × Option Boxed)

  unfoldable pub empty : RoundsRouter
  empty = record { rounds = [] }

  -- `none` is the panic for a round that is registered already.
  unfoldable pub add_round : RoundsRouter → (r : P.R) → (P.store r).Store → Option RoundsRouter
  add_round router r store = elim (lookup (P.round_number r) router.rounds) [
    | none ↦ some (record {
      rounds =
          insert (P.round_number r) (some (record { kind = r; round = new (P.store r) store }))
            router.rounds;
    })
    | some _ ↦ none
  ]

  unfoldable pub deliver : Boxed → Incoming P.Msg → Boxed
  deliver b incoming =
      if needs_more_messages (P.store b.kind) b.round
      then record { kind = b.kind; round = process_message P b.kind b.round incoming }
      else b

  unfoldable pub received_msg :
      RoundsRouter → Incoming P.Msg → RoundsRouter × Result (Unit {0}) UnregisteredRound
  unfolding deliver
  received_msg router incoming = elim (lookup (P.round incoming.msg) router.rounds) [
    | none ↦ (router, err (record { n = P.round incoming.msg; witness_provided = false }))
    | some none ↦ (router, ok tt)
    | some (some b) ↦ (
      record { rounds = insert (P.round incoming.msg) (some (deliver b incoming)) router.rounds },
      ok tt,
    )
  ]

  -- `retrieve_round_output::<R>`, for a box that holds a store of type `a`.
  unfoldable pub retrieved :
      (a r : P.R) → Result (RoundResult (P.store a)) TakeOutputError → RoundResult (P.store r)
  retrieved a r (ok (ok any)) = elim (P.downcast_output a r any) [
    | some o ↦ ok o
    | none ↦ err (from_bug mismatched_output_type)
  ]
  retrieved a r (ok (err any)) = elim (P.downcast_error a r any) [
    | some e ↦ err e
    | none ↦ err (from_bug mismatched_error_type)
  ]
  retrieved a r (err e) = err (from_bug (take_round_result e))

  unfoldable pub retrieve_round_output : Boxed → (r : P.R) → Boxed × RoundResult (P.store r)
  unfolding retrieved
  retrieve_round_output b r =
      let (round, taken) = take_output (P.store b.kind) b.round in
      (record { kind = b.kind; round = round }, retrieved b.kind r taken)

  -- `err tt` hands the witness back: more messages are needed.
  unfoldable pub complete_round :
      RoundsRouter → (r : P.R) → RoundsRouter × Result (RoundResult (P.store r)) (Unit {0})
  unfolding retrieve_round_output
  complete_round router r = elim (lookup (P.round_number r) router.rounds) [
    | none ↦ (
      router,
      ok (err (from_unregistered (record { n = P.round_number r; witness_provided = true }))),
    )
    | some none ↦ (router, ok (err (from_bug (round_gone_but_witness_exists (P.round_number r)))))
    | some (some b) ↦
        if needs_more_messages (P.store b.kind) b.round
        then (router, err tt)
        else let (b', result) = retrieve_round_output b r in
          (record { rounds = insert (P.round_number r) (some b') router.rounds }, ok result)
  ]
