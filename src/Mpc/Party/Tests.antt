-- ===== src/Mpc/Party/Tests.antt =====
-- `MpcParty` of round-based/src/mpc/party/mod.rs at concrete inputs.
use round_based.Prelude.{ℕ, ◌≡◌, refl, some, List, [], ◌∷◌, ok}
use round_based.Delivery.{Outgoing}
use round_based.Round.SimpleStore.{add_message, wants_more, output}
use round_based.Mpc.Process.{
  in_progress, completed, process_message, process_in_store, after_message,
}
use round_based.Mpc.Process.Steps.{process_all}
use round_based.Mpc.Router.{lookup}
use round_based.Mpc.Router.Routing.{receive_all, messages_of}
use round_based.Mpc.Router.Retrieval.{own_box, taken}
use round_based.Mpc.Party.{Sink, complete_loop}
use round_based.Mpc.Party.Complete.{complete_loop-completes}
use round_based.Mpc.Party.{MpcParty}
use round_based.Mpc.Party.Sending.{logged}
use round_based.Mpc.Party.Many.{flush, send_batch, send_many, send_each, flush-send_batch}
use round_based.Mpc.Party.Many
use round_based.Prelude.{◌++◌}
use round_based.Delivery.{outgoing_p2p, outgoing_all_parties}
use round_based.Mpc.Tests.{
  Msg, protocol, protocol-IsLawful, waiting, half, both, router, from_2, early, from_1, commit_msg,
  decommit_msg, commit,
}

-- A sink that keeps the messages, and never fails.
abbrev keeps : Sink Msg ℕ
keeps = record {
  State = List (Outgoing Msg);
  feed = λ s m. (m ∷ s, ok tt);
  flush = λ s. (s, ok tt);
}

waits_for_commits :
    lookup 1 router.rounds
    ≡ some (some (own_box protocol protocol-IsLawful commit (in_progress waiting)))
unfolding lookup
waits_for_commits = refl

one_received :
    process_all protocol commit (in_progress waiting) (messages_of protocol 1 (early ∷ from_2 ∷ []))
    ≡ in_progress half
unfolding process_message process_in_store after_message add_message wants_more
one_received = refl

last_received : process_message protocol commit (in_progress half) from_1 ≡ completed (ok both)
unfolding process_message process_in_store after_message add_message wants_more output
last_received = refl

complete_loop-completes_example :
    complete_loop protocol ℕ keeps commit router (ok early ∷ ok from_2 ∷ ok from_1 ∷ ok early ∷ [])
    ≡ (
      taken protocol protocol-IsLawful commit
          (receive_all protocol router (early ∷ from_2 ∷ from_1 ∷ [])),
      ok early ∷ [],
      ok both,
    )
unfolding lookup
complete_loop-completes_example =
    complete_loop-completes protocol protocol-IsLawful ℕ keeps commit (early ∷ from_2 ∷ []) router
      (in_progress waiting) half from_1 (ok both) (ok early ∷ []) (refl, (refl, (refl, tt)))
      waits_for_commits one_received refl last_received

abbrev Log : Sink Msg ℕ
Log = logged protocol ℕ keeps

abbrev batch : List (Outgoing Msg)
batch = outgoing_p2p 1 (decommit_msg 8) ∷ outgoing_all_parties (commit_msg 9) ∷ []

abbrev reversed : List (Outgoing Msg)
reversed = outgoing_all_parties (commit_msg 9) ∷ outgoing_p2p 1 (decommit_msg 8) ∷ []

abbrev sending : MpcParty protocol ℕ Log
sending = record { router = router; halves = record { incomings = []; outgoings = ([], []) } }

abbrev flushed : MpcParty protocol ℕ Log
flushed = record {
  router = router;
  halves = record { incomings = []; outgoings = (reversed, batch) };
}

is_flushed :
    flush protocol ℕ Log (send_batch protocol ℕ Log (send_many protocol ℕ Log sending) batch)
    ≡ ok flushed
unfolding flush send_batch Many.send
is_flushed = refl

flush-send_batch_example :
    (flushed.outgoings.1 ≡ sending.outgoings.1 ++ batch)
    × (flushed.outgoings.1 ≡ (send_each protocol ℕ Log sending batch).outgoings.1)
    × (flushed.router ≡ sending.router)
    × (flushed.incomings ≡ sending.incomings)
flush-send_batch_example = flush-send_batch protocol ℕ keeps sending flushed batch is_flushed
