-- ===== src/EchoBroadcast/Store.antt =====
-- round-based/src/echo_broadcast/store.rs: the stores of a main round with a reliability check and of
-- its echo round. `MainRoundState::Gone` is seen only between two statements of `add_message`.
pub mod Agreement
pub mod Mirror
pub mod Reliability
use round_based.Prelude.{
  ℕ, Bool, true, false, not, Option, none, some, List, [], ◌∷◌, Result, ok, err, map_ok, map_err,
  length, get_elem?, set, replicate, ◌==◌, if◌then◌else◌,
}
use mathlib.Core.Option
use round_based.Delivery.{Incoming, MessageType, broadcast, PartyIndex, map_incoming}
use round_based.Round.SimpleStore.{RoundInput, RoundMsgs}
use round_based.Round.SimpleStore
use round_based.Round.Store.{RoundStore}
use round_based.EchoBroadcast.Errors.{
  EchoError, Error, main, echo, unknown_sender, store_received_two_msgs_from_same_party, state_gone,
  received_main_msg_when_round_over, round_msg_clone, own_index_out_of_bounds, mismatched_hash,
  handle_echo, main_round_finished_but_store_doesnt_output,
}

-- What a round with a reliability check is built from: the store of the main round, the protocol's
-- messages and their conversions, the number of the round, and the digest with the equality of its
-- outputs. `hash` is `udigest::hash` of the messages, the round and `n`.
pub record Reliable : Type 1 where
  pub S : RoundStore
  pub ProtoMsg : Type 0
  pub to_protocol_msg : S.Msg → ProtoMsg
  pub from_protocol_msg : ProtoMsg → Result S.Msg ProtoMsg
  pub round_number : ℕ
  pub Hash : Type 0
  pub hash : List (Option ProtoMsg) → ℕ → ℕ → Hash
  pub eq_hash : Hash → Hash → Bool

module _ (E : Reliable) where
  pub data MainRoundState : Type 0 where
    ongoing : E.S.Store → MainRoundState
    output : E.S.Output → MainRoundState
    finished gone : MainRoundState

  pub record MainRound : Type 0 where
    pub i : PartyIndex
    pub n : ℕ
    pub state : MainRoundState
    pub received_msgs : List (Option E.ProtoMsg)

  pub record NeedsOwnMsg : Type 0 where
    pub i : PartyIndex
    pub n : ℕ
    pub main_round_output : E.S.Output
    pub received_msgs : List (Option E.ProtoMsg)

  pub record ReliabilityCheck : Type 0 where
    pub expected_hash : E.Hash
    pub main_round_output : E.S.Output

  abbrev initial_state : Result E.S.Output E.S.Store → MainRoundState
  initial_state (ok o) = output o
  initial_state (err store) = ongoing store

  -- `new`; it panics where the echo round's store does.
  unfoldable pub new : PartyIndex → ℕ → E.S.Store → Option (MainRound × RoundInput E.Hash)
  new i n main_round = elim (SimpleStore.new {M = E.Hash} i n (broadcast false)) [
    | none ↦ none
    | some echo_round ↦ some (
      record {
        i = i;
        n = n;
        state = initial_state (E.S.output main_round);
        received_msgs = replicate n none;
      },
      echo_round,
    )
  ]

  -- `clone_incoming_round_msg`
  unfoldable pub clone_incoming_round_msg :
      Incoming E.S.Msg → Option (Incoming E.S.Msg × Incoming E.S.Msg)
  clone_incoming_round_msg m = elim (E.from_protocol_msg (E.to_protocol_msg m.msg)) [
    | ok msg ↦ some (map_incoming (λ _. msg) m, map_incoming (λ _. msg) m)
    | err _ ↦ none
  ]

  -- The end of `add_message`, by `store.wants_more()`.
  unfoldable pub close :
      MainRound → E.S.Store → Bool → MainRound × Result (Unit {0}) (Error E.S.Error)
  close w store true = (record w { state = ongoing store }, ok tt)
  close w store false = elim (E.S.output store) [
    | ok o ↦ (record w { state = output o }, ok tt)
    | err _ ↦
        (record w { state = finished }, err (echo main_round_finished_but_store_doesnt_output))
  ]

  -- The write to the slot of the sender.
  unfoldable pub fill_slot :
      MainRound
      → E.S.Store
      → Incoming E.S.Msg
      → Option (Option E.ProtoMsg)
      → MainRound × Result (Unit {0}) (Error E.S.Error)
  unfolding close
  fill_slot w store m none = (
    record w { state = ongoing store },
    err (echo (unknown_sender m.sender (length w.received_msgs))),
  )
  fill_slot w store m (some (some _)) =
      (record w { state = ongoing store }, err (echo store_received_two_msgs_from_same_party))
  fill_slot w store m (some none) =
      close
        (record w { received_msgs = set w.received_msgs m.sender (some (E.to_protocol_msg m.msg)) })
        store (E.S.wants_more store)

  -- What follows `store.add_message`.
  unfoldable pub after_store :
      MainRound
      → Incoming E.S.Msg
      → E.S.Store × Result (Unit {0}) E.S.Error
      → MainRound × Result (Unit {0}) (Error E.S.Error)
  unfolding fill_slot
  after_store w m (store, err e) = (record w { state = ongoing store }, err (main e))
  after_store w m (store, ok _) = fill_slot w store m (get_elem? w.received_msgs m.sender)

  -- The case of a main round that goes on.
  unfoldable pub add_ongoing :
      MainRound
      → E.S.Store
      → Option (Incoming E.S.Msg × Incoming E.S.Msg)
      → MainRound × Result (Unit {0}) (Error E.S.Error)
  unfolding after_store
  add_ongoing w store none = (w, err (echo round_msg_clone))
  add_ongoing w store (some (incoming1, incoming2)) =
      after_store w incoming2 (E.S.add_message store incoming1)

  -- `MainRound::add_message`, by the state. Any message is taken for a reliable broadcast.
  unfoldable pub add_in_state :
      MainRound
      → Incoming E.S.Msg
      → MainRoundState
      → MainRound × Result (Unit {0}) (Error E.S.Error)
  unfolding add_ongoing clone_incoming_round_msg
  add_in_state w m (ongoing store) = add_ongoing w store (
      clone_incoming_round_msg
        (record { id = m.id; sender = m.sender; msg_type = broadcast true; msg = m.msg }))
  add_in_state w m (output _) = (w, err (echo received_main_msg_when_round_over))
  add_in_state w m finished = (w, err (echo received_main_msg_when_round_over))
  add_in_state w m gone = (w, err (echo state_gone))

  unfoldable pub add_message :
      MainRound → Incoming E.S.Msg → MainRound × Result (Unit {0}) (Error E.S.Error)
  unfolding add_in_state
  add_message w m = add_in_state w m w.state

  unfoldable pub wants_more : MainRound → Bool
  wants_more w = elim w.state [
    | ongoing _ ↦ true
    | output _ ↦ false
    | finished ↦ false
    | gone ↦ false
  ]

  -- `MainRound::output`
  unfoldable pub finish : MainRound → Result NeedsOwnMsg MainRound
  finish w = elim w.state [
    | output o ↦
        ok (record { i = w.i; n = w.n; main_round_output = o; received_msgs = w.received_msgs })
    | ongoing _ ↦ err w
    | finished ↦ err w
    | gone ↦ err w
  ]

  -- The hash that a party sends, of the messages received and its own.
  abbrev pub echo_hash : NeedsOwnMsg → List (Option E.ProtoMsg) → E.Hash
  echo_hash w msgs = E.hash msgs E.round_number w.n

  unfoldable pub with_my_msg :
      NeedsOwnMsg → Option E.S.Msg → Result (ReliabilityCheck × E.Hash) EchoError
  with_my_msg w msg = elim (get_elem? w.received_msgs w.i) [
    | none ↦ err (own_index_out_of_bounds w.i (length w.received_msgs))
    | some _ ↦
        let h = echo_hash w (set w.received_msgs w.i (Option.map E.to_protocol_msg msg)) in
        ok (record { expected_hash = h; main_round_output = w.main_round_output }, h)
  ]

  -- Whether an echo differs from the expected hash.
  unfoldable pub any_other : E.Hash → List E.Hash → Bool
  any_other expected [] = false
  any_other expected (h ∷ hs) = if E.eq_hash h expected then any_other expected hs else true

  unfoldable pub with_echo_output :
      ReliabilityCheck → RoundMsgs E.Hash → Result E.S.Output EchoError
  unfolding any_other
  with_echo_output c echoes =
      if any_other c.expected_hash echoes.messages
      then err mismatched_hash
      else ok c.main_round_output
