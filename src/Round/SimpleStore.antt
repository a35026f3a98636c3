-- ===== src/Round/SimpleStore.antt =====
-- round-based/src/round/simple_store.rs: `RoundInput` collects one message from every other party,
-- `RoundMsgs` is what it puts out. A panic of the source is `none`.
pub mod Slots
pub mod Invariant
pub mod Receive
pub mod Output
pub mod Order
pub mod Sequence
pub mod Fed
pub mod Refines
pub mod Traffic
pub mod Rounds
use mathlib.Core.Option
use round_based.Prelude.{
  ℕ, zero, suc, ◌+◌, ◌-◌, Bool, true, false, ◌&&◌, not, Option, none, some, List, [], ◌∷◌, ◌++◌,
  Result, ok, err, get_elem?, get_or, set, take, drop, replicate, length, ltb, leb, ◌==◌,
  if◌then◌else◌, sub16,
}
use round_based.Delivery.{PartyIndex, MsgId, MessageType, broadcast, p2p, Incoming}

pub record RoundInput (M : Type 0) : Type 0 where
  pub i : PartyIndex
  pub n : ℕ
  pub messages_ids : List MsgId
  pub messages : List (Option M)
  pub left_messages : ℕ
  pub expected_msg_type : MessageType

pub record RoundMsgs (M : Type 0) : Type 0 where
  pub i : PartyIndex
  pub ids : List MsgId
  pub messages : List M

pub data RoundInputError : Type 0 where
  attempt_to_overwrite_received_msg : MsgId → MsgId → PartyIndex → RoundInputError
  sender_index_out_of_range : MsgId → PartyIndex → ℕ → RoundInputError
  mismatched_message_type : MsgId → MessageType → MessageType → RoundInputError

unfoldable pub is_expected_type : MessageType → MessageType → Bool
is_expected_type p2p p2p = true
is_expected_type (broadcast false) (broadcast _) = true
is_expected_type (broadcast true) (broadcast true) = true
is_expected_type _ _ = false

-- The slot of a sender that is not the local party. `sender - 1` is taken at `i < sender` only.
unfoldable pub sender_index : PartyIndex → PartyIndex → ℕ
sender_index i sender = if ltb sender i then sender else sender - 1

-- `into_iter().flatten().collect()`
unfoldable pub flatten_slots : {M : Type 0} → List (Option M) → List M
flatten_slots [] = []
flatten_slots (none ∷ xs) = flatten_slots xs
flatten_slots (some m ∷ xs) = m ∷ flatten_slots xs

-- `Vec::insert`, which panics past the end.
unfoldable pub insert : {M : Type 0} → List M → ℕ → M → Option (List M)
insert xs zero m = some (m ∷ xs)
insert [] (suc k) m = none
insert (x ∷ xs) (suc k) m = Option.map (◌∷◌ x) (insert xs k m)

module _ {M : Type 0} where
  unfoldable pub new : PartyIndex → ℕ → MessageType → Option (RoundInput M)
  new i n msg_type =
      if leb 2 n && ltb i n
      then some (record {
        i = i;
        n = n;
        messages_ids = replicate (n - 1) 0;
        messages = replicate (n - 1) none;
        left_messages = n - 1;
        expected_msg_type = msg_type;
      })
      else none

  -- The match on the slot. The ids are as long as the messages, so neither the write to them nor
  -- the read of them is out of bounds.
  unfoldable pub fill_slot :
      RoundInput M
      → Incoming M
      → ℕ
      → Option (Option M)
      → RoundInput M × Result (Unit {0}) RoundInputError
  fill_slot s msg index (some none) = (
    record s {
      messages = set s.messages index (some msg.msg);
      messages_ids = set s.messages_ids index msg.id;
      left_messages = sub16 s.left_messages 1;
    },
    ok tt,
  )
  fill_slot s msg index (some (some _)) =
      (s, err (attempt_to_overwrite_received_msg (get_or s.messages_ids index 0) msg.id msg.sender))
  fill_slot s msg index none = (s, err (sender_index_out_of_range msg.id msg.sender s.n))

  unfoldable pub add_message :
      RoundInput M → Incoming M → RoundInput M × Result (Unit {0}) RoundInputError
  unfolding is_expected_type sender_index fill_slot
  add_message s msg =
      if not (is_expected_type s.expected_msg_type msg.msg_type)
      then (s, err (mismatched_message_type msg.id s.expected_msg_type msg.msg_type))
      else if msg.sender == s.i
      then (s, ok tt)
      else fill_slot s msg (sender_index s.i msg.sender)
          (get_elem? s.messages (sender_index s.i msg.sender))

  unfoldable pub wants_more : RoundInput M → Bool
  wants_more s = ltb 0 s.left_messages

  unfoldable pub output : RoundInput M → Result (RoundMsgs M) (RoundInput M)
  unfolding flatten_slots
  output s =
      if ltb 0 s.left_messages
      then err s
      else ok (record { i = s.i; ids = s.messages_ids; messages = flatten_slots s.messages })

  -- What `read_any_prop` answers to `RequiresReliableBroadcast`.
  unfoldable pub requires_reliable_broadcast : RoundInput M → Bool
  requires_reliable_broadcast s = elim s.expected_msg_type [
    | broadcast reliable ↦ reliable
    | p2p ↦ false
  ]

  unfoldable pub into_vec_including_me : RoundMsgs M → M → Option (List M)
  unfolding insert
  into_vec_including_me r my_msg = insert r.messages r.i my_msg

  unfoldable pub iter_including_me : RoundMsgs M → M → List M
  iter_including_me r my_msg = take r.i r.messages ++ my_msg ∷ drop r.i r.messages

-- The iterator `InsertsAfter` that `into_iter_including_me` returns; `inner` is what is left of the
-- vector's iterator.
pub record InsertsAfter (T : Type 0) : Type 0 where
  pub offset : ℕ
  pub inner : List T
  pub item : Option T

module _ {T : Type 0} where
  -- `Vec`'s iterator.
  abbrev next_inner : InsertsAfter T → Option T × InsertsAfter T
  next_inner it = elim it.inner [ [] ↦ (none, it) | x ∷ xs ↦ (some x, record it { inner = xs }) ]

  next_at : InsertsAfter T → ℕ → Option T → Option T × InsertsAfter T
  next_at it zero (some x) = (some x, record it { item = none })
  next_at it zero none = next_inner it
  next_at it (suc k) _ = next_inner (record it { offset = k })

  unfoldable pub next : InsertsAfter T → Option T × InsertsAfter T
  unfolding next_at
  next it = next_at it it.offset it.item

  -- A consumer's loop: at most `fuel` items, up to the first `None`.
  unfoldable pub collect : ℕ → InsertsAfter T → List T
  collect zero it = []
  collect (suc fuel) it =
      let (x, it') = next it in elim x [ none ↦ [] | some m ↦ m ∷ collect fuel it' ]

unfoldable pub into_iter_including_me : {M : Type 0} → RoundMsgs M → M → InsertsAfter M
into_iter_including_me r my_msg = record { offset = r.i; inner = r.messages; item = some my_msg }

-- The `j`-th item of `(0..i).chain(i + 1..)`.
unfoldable pub party_index : PartyIndex → ℕ → PartyIndex
party_index i j = if ltb j i then j else j + 1

module _ {M : Type 0} where
  -- `(0..i).chain(i + 1..).zip(ids).zip(messages)` from its `j`-th item.
  unfoldable pub indexed_from : PartyIndex → ℕ → List MsgId → List M → List (PartyIndex × MsgId × M)
  indexed_from i j (id ∷ ids) (m ∷ messages) =
      (party_index i j, id, m) ∷ indexed_from i (j + 1) ids messages
  indexed_from _ _ _ _ = []

  unfoldable pub into_iter_indexed : RoundMsgs M → List (PartyIndex × MsgId × M)
  unfolding party_index indexed_from
  into_iter_indexed r = indexed_from r.i 0 r.ids r.messages
