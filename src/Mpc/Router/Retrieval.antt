-- ===== src/Mpc/Router/Retrieval.antt =====
-- What `complete_round` of round-based/src/mpc/party/router.rs hands out.
use round_based.Prelude.{◌≡◌, refl, ap, ◌∙◌, false, some, Result, ok, err, ==_refl}
use round_based.Mpc.Errors.{from_bug, take_round_result, already_taken}
use round_based.Mpc.Protocol.{Protocol, IsLawful}
use round_based.Mpc.Process.{
  ProcessRoundMessageImpl, RoundResult, in_progress, completed, gone, needs_more_messages,
  take_output,
}
use round_based.Mpc.Router.{
  Boxed, RoundsRouter, lookup, insert, retrieved, retrieve_round_output, complete_round,
}
use round_based.Mpc.Router.Rounds.{lookup-insert}

module _ (P : Protocol) (lawful : IsLawful P) (r : P.R) where
  abbrev pub own_box : ProcessRoundMessageImpl (P.store r) → Boxed P
  own_box p = record { kind = r; round = p }

  -- The router after the round's result has been handed out.
  abbrev pub taken : RoundsRouter P → RoundsRouter P
  taken router = record { rounds = insert (P.round_number r) (some (own_box gone)) router.rounds }

  -- What the holder of the witness gets, by the state of the round.
  unfoldable pub handed_out :
      RoundsRouter P
      → ProcessRoundMessageImpl (P.store r)
      → RoundsRouter P × Result (RoundResult (P.store r)) (Unit {0})
  handed_out router (in_progress _) = (router, err tt)
  handed_out router (completed result) = (taken router, ok result)
  handed_out router gone = (taken router, ok (err (from_bug (take_round_result already_taken))))

  -- In a lawful protocol, completing a registered round under its own type yields nothing while it
  -- is in progress, its very output or error once it is completed, and from then on the error that
  -- it was taken. The casts never fail.
  pub complete_round-handed_out :
      (router : RoundsRouter P) (p : ProcessRoundMessageImpl (P.store r))
      → lookup (P.round_number r) router.rounds ≡ some (some (own_box p))
      → complete_round P router r ≡ handed_out router p
  unfolding complete_round handed_out needs_more_messages take_output retrieve_round_output
      retrieved
  complete_round-handed_out router (in_progress store) e = rw (e, complete_round)
  complete_round-handed_out router (completed (ok o)) e =
      rw (e, complete_round) (rw (lawful.output_self r o))
  complete_round-handed_out router (completed (err x)) e =
      rw (e, complete_round) (rw (lawful.error_self r x))
  complete_round-handed_out router gone e = rw (e, complete_round)

  lookup-taken :
      (router : RoundsRouter P)
      → lookup (P.round_number r) (taken router).rounds ≡ some (some (own_box gone))
  lookup-taken router =
      lookup-insert (P.round_number r) (P.round_number r) _ router.rounds
      ∙ rw (==_refl (P.round_number r))

  handed_out-gone :
      (router : RoundsRouter P) (p : ProcessRoundMessageImpl (P.store r))
      → needs_more_messages (P.store r) p ≡ false
      → lookup (P.round_number r) (handed_out router p).0.rounds ≡ some (some (own_box gone))
  unfolding handed_out needs_more_messages
  handed_out-gone router (in_progress s) h = cc
  handed_out-gone router (completed x) h = lookup-taken router
  handed_out-gone router gone h = lookup-taken router

  -- In a lawful protocol, a result is handed out once: completing a round again, after it was
  -- complete and its result taken, reports that it was taken.
  pub complete_round_twice :
      (router : RoundsRouter P) (p : ProcessRoundMessageImpl (P.store r))
      → lookup (P.round_number r) router.rounds ≡ some (some (own_box p))
      → needs_more_messages (P.store r) p ≡ false
      → (complete_round P (complete_round P router r).0 r).1
        ≡ ok (err (from_bug (take_round_result already_taken)))
  complete_round_twice router p e over = rw (complete_round-handed_out router p e) (
      ap (λ x. x.1)
        (complete_round-handed_out (handed_out router p).0 gone (handed_out-gone router p over))
      ∙ unfold handed_out in refl)
