-- ===== src/Mpc/Process.antt =====
-- `ProcessRoundMessageImpl` of round-based/src/mpc/party/router.rs: one registered round. The branch
-- for a state that changed between two matches, `Bug::IncoherentState`, has no counterpart, since
-- nothing runs between them.
pub mod Steps
use round_based.Prelude.{
  ℕ, Bool, true, false, Option, none, some, Result, ok, err, ◌>>=◌, map_err, if◌then◌else◌,
}
use round_based.Delivery.{Incoming, try_map_incoming}
use round_based.Round.Store.{RoundStore}
use round_based.Mpc.Errors.{
  CompleteRoundError, process_msg, from_bug, from_improper, store_didnt_output,
  message_from_another_round, TakeOutputError, already_taken, not_ready,
}
use round_based.Mpc.Protocol.{Protocol}

abbrev pub RoundResult : RoundStore → Type 0
RoundResult S = Result S.Output (CompleteRoundError S.Error ⊥)

pub data ProcessRoundMessageImpl (S : RoundStore) : Type 0 where
  in_progress : S.Store → ProcessRoundMessageImpl S
  completed : RoundResult S → ProcessRoundMessageImpl S
  gone : ProcessRoundMessageImpl S

module _ (S : RoundStore) where
  -- What becomes of a store that wants no more messages.
  abbrev pub store_output : S.Store → RoundResult S
  store_output store = map_err (λ _. from_improper store_didnt_output) (S.output store)

  unfoldable pub new : S.Store → ProcessRoundMessageImpl S
  new store = if S.wants_more store then in_progress store else completed (store_output store)

  unfoldable pub needs_more_messages : ProcessRoundMessageImpl S → Bool
  needs_more_messages (in_progress _) = true
  needs_more_messages (completed _) = false
  needs_more_messages gone = false

  unfoldable pub take_output :
      ProcessRoundMessageImpl S → ProcessRoundMessageImpl S × Result (RoundResult S) TakeOutputError
  take_output (in_progress store) = (in_progress store, err not_ready)
  take_output (completed result) = (gone, ok result)
  take_output gone = (gone, err already_taken)

module _ (P : Protocol) (r : P.R) where
  abbrev S : RoundStore
  S = P.store r

  -- `_process_message`
  unfoldable pub process_in_store :
      S.Store → Incoming P.Msg → S.Store × Result (Unit {0}) (CompleteRoundError S.Error ⊥)
  process_in_store store incoming = elim (try_map_incoming (P.from_protocol_msg r) incoming) [
    | ok msg ↦
        let (store', result) = S.add_message store msg in (store', map_err process_msg result)
    | err msg ↦
        (store, err (from_bug (message_from_another_round (P.round_number r) (P.round msg))))
  ]

  -- The match on the outcome of `_process_message`.
  unfoldable pub after_message :
      S.Store × Result (Unit {0}) (CompleteRoundError S.Error ⊥) → ProcessRoundMessageImpl S
  after_message (store, ok _) =
      if S.wants_more store then in_progress store else completed (store_output S store)
  after_message (store, err e) = completed (err e)

  unfoldable pub process_message :
      ProcessRoundMessageImpl S → Incoming P.Msg → ProcessRoundMessageImpl S
  unfolding process_in_store after_message
  process_message (in_progress store) incoming = after_message (process_in_store store incoming)
  process_message (completed result) incoming = completed result
  process_message gone incoming = gone
