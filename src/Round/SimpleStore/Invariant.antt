-- ===== src/Round/SimpleStore/Invariant.antt =====
-- The state that `RoundInput` of round-based/src/round/simple_store.rs keeps, and what it holds of
-- each party.
use round_based.Prelude.{
  ℕ, ◌+◌, ◌≤◌, ◌<◌, ◌≡◌, refl, inl, inr, Option, none, some, arith, length, get_elem?, get_or,
  length-set, Bool-cases, u16_mod, ◌==◌, if◌then◌else◌,
}
use round_based.Delivery.{Incoming, MsgId}
use round_based.Round.SimpleStore.{
  RoundInput, add_message, fill_slot, is_expected_type, sender_index,
}
use round_based.Round.SimpleStore.Slots.{vacant, vacant-set, vacant-le-length}

pub record IsValid {M : Type 0} (s : RoundInput M) : Type 0 where
  pub two_parties : 2 ≤ s.n
  pub own_index : s.i < s.n
  pub fits : s.n < u16_mod
  pub slots : length s.messages + 1 ≡ s.n
  pub ids : length s.messages_ids + 1 ≡ s.n
  pub counted : s.left_messages ≡ vacant s.messages

module _ {M : Type 0} where
  -- The message, with its id, that the store holds from party `j`.
  abbrev pub slot_message : ℕ → Option (Option M) → Option (MsgId × M)
  slot_message id (some (some m)) = some (id, m)
  slot_message id (some none) = none
  slot_message id none = none

  abbrev pub slot : RoundInput M → ℕ → Option (MsgId × M)
  slot s j =
      slot_message (get_or s.messages_ids (sender_index s.i j) 0)
        (get_elem? s.messages (sender_index s.i j))

  -- Nothing is ever held from the local party.
  unfoldable pub received : RoundInput M → ℕ → Option (MsgId × M)
  unfolding sender_index
  received s j = if j == s.i then none else slot s j

  fill_slot-IsValid :
      (s : RoundInput M) (msg : Incoming M) (k : ℕ) (o : Option (Option M))
      → get_elem? s.messages k ≡ o
      → IsValid s
      → IsValid (fill_slot s msg k o).0
  unfolding fill_slot
  fill_slot-IsValid s msg k none e v = v
  fill_slot-IsValid s msg k (some (some m)) e v = v
  fill_slot-IsValid s msg k (some none) e v = record {
    two_parties = v.two_parties;
    own_index = v.own_index;
    fits = v.fits;
    slots = omega (arith, length-set s.messages k (some msg.msg), v.slots);
    ids = omega (arith, length-set s.messages_ids k msg.id, v.ids);
    counted = omega (
      arith,
      v.counted,
      v.slots,
      v.fits,
      vacant-set s.messages k msg.msg e,
      vacant-le-length s.messages,
    );
  }

  -- Every call keeps the store well formed.
  pub add_message-IsValid :
      (s : RoundInput M) (msg : Incoming M) → IsValid s → IsValid (add_message s msg).0
  unfolding add_message
  add_message-IsValid s msg v =
      elim (Bool-cases (is_expected_type s.expected_msg_type msg.msg_type)) [
        | inr bad ↦ rw (bad, add_message) v
        | inl good ↦ elim (Bool-cases (msg.sender == s.i)) [
          | inl own ↦ rw (good, own, add_message) v
          | inr other ↦ rw (good, other, add_message) (fill_slot-IsValid s msg _ _ refl v)
        ]
      ]
