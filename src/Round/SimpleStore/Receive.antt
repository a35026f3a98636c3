-- ===== src/Round/SimpleStore/Receive.antt =====
-- What one call of `add_message` in round-based/src/round/simple_store.rs does, on every branch.
use round_based.Prelude.{
  ℕ, zero, suc, ◌+◌, ◌≤◌, ◌<◌, ◌≡◌, ◌≢◌, refl, sym, ap, ◌∙◌, ◌⊎◌, Bool, inl, inr, true, false, none,
  some, List, [], ◌∷◌, arith, length, get_elem?, get_or, set, get_elem?-ge, get_elem?-set_self,
  get_elem?-set_ne, get_elem?-some, Option-cases, Bool-cases, Result, ok, err, ltb, ◌==◌, ==_ne,
  if◌then◌else◌,
}
use round_based.Delivery.{Incoming, MsgId, MessageType, broadcast, p2p}
use round_based.Round.SimpleStore.{
  RoundInput, RoundInputError, attempt_to_overwrite_received_msg, sender_index_out_of_range,
  mismatched_message_type, add_message, fill_slot, is_expected_type, sender_index,
}
use round_based.Round.SimpleStore.Slots.{vacant-pos, vacant-le-length}
use round_based.Round.SimpleStore.Invariant.{IsValid, received, slot}

-- What a round asks of a message's type: a p2p round takes p2p messages, and a broadcast round
-- broadcasts, reliable ones if it asks for them.
abbrev pub meets : MessageType → MessageType → Bool
meets p2p p2p = true
meets p2p (broadcast _) = false
meets (broadcast _) p2p = false
meets (broadcast false) (broadcast _) = true
meets (broadcast true) (broadcast reliable) = reliable

pub is_expected_type-meets :
    (expected actual : MessageType) → is_expected_type expected actual ≡ meets expected actual
unfolding is_expected_type
is_expected_type-meets p2p p2p = refl
is_expected_type-meets p2p (broadcast reliable) = refl
is_expected_type-meets (broadcast false) p2p = refl
is_expected_type-meets (broadcast true) p2p = refl
is_expected_type-meets (broadcast false) (broadcast false) = refl
is_expected_type-meets (broadcast false) (broadcast true) = refl
is_expected_type-meets (broadcast true) (broadcast false) = refl
is_expected_type-meets (broadcast true) (broadcast true) = refl

pub sender_index-injective :
    (i a b : ℕ) → a ≢ i → b ≢ i → a ≢ b → sender_index i a ≢ sender_index i b
unfolding sender_index
sender_index-injective i a b ha hb h = ground arith

get_or-set_self : (xs : List ℕ) (k v : ℕ) → k < length xs → get_or (set xs k v) k 0 ≡ v
get_or-set_self [] k v h = elim h [ ]
get_or-set_self (x ∷ xs) zero v h = refl
get_or-set_self (x ∷ xs) (suc k) v h = get_or-set_self xs k v (omega arith)

pub get_or-set_ne : (xs : List ℕ) (k j v : ℕ) → k ≢ j → get_or (set xs k v) j 0 ≡ get_or xs j 0
get_or-set_ne [] k j v h = refl
get_or-set_ne (x ∷ xs) zero zero v h = absurd (h refl)
get_or-set_ne (x ∷ xs) zero (suc j) v h = refl
get_or-set_ne (x ∷ xs) (suc k) zero v h = refl
get_or-set_ne (x ∷ xs) (suc k) (suc j) v h = get_or-set_ne xs k j v (λ e. h (ap suc e))

module _ {M : Type 0} where
  -- A party in range has a slot, and one out of range has none.
  pub in_range :
      (s : RoundInput M) (j : ℕ)
      → IsValid s
      → j ≢ s.i
      → j < s.n
      → sender_index s.i j < length s.messages
  unfolding sender_index
  in_range s j v h l = ground (arith, v.slots, v.own_index)

  pub out_of_range :
      (s : RoundInput M) (j : ℕ)
      → IsValid s
      → s.n ≤ j
      → get_elem? s.messages (sender_index s.i j) ≡ none
  unfolding sender_index
  out_of_range s j v h =
      get_elem?-ge s.messages (sender_index s.i j) (ground (arith, v.slots, v.own_index))

  pub received_other : (s : RoundInput M) (j : ℕ) → j ≢ s.i → received s j ≡ slot s j
  unfolding received
  received_other s j h = rw (==_ne j s.i h)

  slot_cases :
      (s : RoundInput M) (j : ℕ)
      → IsValid s
      → j ≢ s.i
      → j < s.n
      → ((get_elem? s.messages (sender_index s.i j) ≡ some none) × (received s j ≡ none))
        ⊎ ((m : M) × (get_elem? s.messages (sender_index s.i j) ≡ some (some m))
            × (received s j ≡ some (get_or s.messages_ids (sender_index s.i j) 0, m)))
  slot_cases s j v h l =
      let (o, e) = get_elem?-some s.messages (sender_index s.i j) (in_range s j v h l) in
      elim (Option-cases o) [
        | inl p ↦ inl (e ∙ ap some p, received_other s j h ∙ rw (e ∙ ap some p))
        | inr (m, p) ↦ inr (m, e ∙ ap some p, received_other s j h ∙ rw (e ∙ ap some p))
      ]

  -- The four ways a call can end, decided by the type of the message, its sender, and what the
  -- store holds of the sender.
  pub data Outcome (s : RoundInput M) (msg : Incoming M)
      (r : RoundInput M × Result (Unit {0}) RoundInputError) : Type 0 where
    mismatched :
        meets s.expected_msg_type msg.msg_type ≡ false
        → r ≡ (s, err (mismatched_message_type msg.id s.expected_msg_type msg.msg_type))
        → Outcome s msg r
    own :
        meets s.expected_msg_type msg.msg_type ≡ true
        → msg.sender ≡ s.i
        → r ≡ (s, ok tt)
        → Outcome s msg r
    unknown :
        meets s.expected_msg_type msg.msg_type ≡ true
        → s.n ≤ msg.sender
        → r ≡ (s, err (sender_index_out_of_range msg.id msg.sender s.n))
        → Outcome s msg r
    twice :
        (id : MsgId) (m : M)
        → meets s.expected_msg_type msg.msg_type ≡ true
        → msg.sender ≢ s.i
        → received s msg.sender ≡ some (id, m)
        → r ≡ (s, err (attempt_to_overwrite_received_msg id msg.id msg.sender))
        → Outcome s msg r
    stored :
        meets s.expected_msg_type msg.msg_type ≡ true
        → msg.sender ≢ s.i
        → msg.sender < s.n
        → received s msg.sender ≡ none
        → r.1 ≡ ok tt
        → r.0.left_messages + 1 ≡ s.left_messages
        → ((j : ℕ)
            → received r.0 j ≡ (if j == msg.sender then some (msg.id, msg.msg) else received s j))
        → (r.0.i ≡ s.i) × (r.0.n ≡ s.n) × (r.0.expected_msg_type ≡ s.expected_msg_type)
        → Outcome s msg r

  fill_slot-slot :
      (s : RoundInput M) (msg : Incoming M) (j : ℕ)
      → IsValid s
      → msg.sender ≢ s.i
      → msg.sender < s.n
      → j ≢ s.i
      → slot (fill_slot s msg (sender_index s.i msg.sender) (some none)).0 j
        ≡ (if j == msg.sender then some (msg.id, msg.msg) else slot s j)
  unfolding fill_slot
  fill_slot-slot s msg j v h l hj = elim (Bool-cases (j == msg.sender)) [
    | inl same ↦
        let p : j ≡ msg.sender = ground arith in
        let here = in_range s msg.sender v h l in
        rw (same, p)
          (rw (
            get_elem?-set_self s.messages (sender_index s.i msg.sender) (some msg.msg) here,
            get_or-set_self s.messages_ids (sender_index s.i msg.sender) msg.id
                (omega (arith, v.slots, v.ids)),
          ))
    | inr other ↦
        let ne : msg.sender ≢ j = ground arith in
        let apart = sender_index-injective s.i msg.sender j h hj ne in
        rw (
          other,
          get_elem?-set_ne s.messages _ _ (some msg.msg) apart,
          get_or-set_ne s.messages_ids _ _ msg.id apart,
        )
  ]

  fill_slot-received :
      (s : RoundInput M) (msg : Incoming M) (j : ℕ)
      → IsValid s
      → msg.sender ≢ s.i
      → msg.sender < s.n
      → received (fill_slot s msg (sender_index s.i msg.sender) (some none)).0 j
        ≡ (if j == msg.sender then some (msg.id, msg.msg) else received s j)
  unfolding received fill_slot
  fill_slot-received s msg j v h l = elim (Bool-cases (j == s.i)) [
    | inl mine ↦ let p : (j == msg.sender) ≡ false = ground arith in rw (mine, p)
    | inr other ↦ rw other (unfold fill_slot in (fill_slot-slot s msg j v h l (ground arith)))
  ]

  fill_slot-left :
      (s : RoundInput M) (msg : Incoming M) (k : ℕ)
      → IsValid s
      → get_elem? s.messages k ≡ some none
      → (fill_slot s msg k (some none)).0.left_messages + 1 ≡ s.left_messages
  unfolding fill_slot
  fill_slot-left s msg k v e =
      omega
        (arith, v.counted, v.slots, v.fits, vacant-pos s.messages k e, vacant-le-length s.messages)

  fill_slot-Outcome :
      (s : RoundInput M) (msg : Incoming M)
      → IsValid s
      → meets s.expected_msg_type msg.msg_type ≡ true
      → msg.sender ≢ s.i
      → Outcome s msg (
          fill_slot s msg
            (sender_index s.i msg.sender)
            (get_elem? s.messages (sender_index s.i msg.sender)))
  fill_slot-Outcome s msg v good other = elim (Bool-cases (ltb msg.sender s.n)) [
    | inr far ↦
        let e = out_of_range s msg.sender v (ground arith) in
        rw e (unknown good (ground arith) (unfold fill_slot in refl))
    | inl near ↦ elim (slot_cases s msg.sender v other (ground arith)) [
      | inl (e, free) ↦ rw e (
          stored good other (ground arith) free (unfold fill_slot in refl)
            (fill_slot-left s msg _ v e) (λ j. fill_slot-received s msg j v other (ground arith))
            (unfold fill_slot in (refl, refl, refl)))
      | inr (m, e, held) ↦ rw e (twice _ m good other held (unfold fill_slot in refl))
    ]
  ]

  -- `add_message` on a well-formed store: a message whose type is not what the round asks for is
  -- refused, whoever sent it; of those that remain, one's own message is ignored, one of an unknown
  -- sender or of a sender that was heard before is refused, and any other is stored, under its
  -- sender and no other party, and one message less is waited for. A refusal has the error that says
  -- why and changes nothing.
  pub add_message-Outcome :
      (s : RoundInput M) (msg : Incoming M) → IsValid s → Outcome s msg (add_message s msg)
  unfolding add_message
  add_message-Outcome s msg v =
      let type_is = is_expected_type-meets s.expected_msg_type msg.msg_type in
      elim (Bool-cases (is_expected_type s.expected_msg_type msg.msg_type)) [
        | inr bad ↦ rw (bad, add_message) (mismatched (sym type_is ∙ bad) refl)
        | inl good ↦ elim (Bool-cases (msg.sender == s.i)) [
          | inl mine ↦ rw (good, mine, add_message) (own (sym type_is ∙ good) (ground arith) refl)
          | inr other ↦
              rw (good, other, add_message)
                (fill_slot-Outcome s msg v (sym type_is ∙ good) (ground arith))
        ]
      ]
