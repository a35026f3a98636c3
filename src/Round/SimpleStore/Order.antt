-- ===== src/Round/SimpleStore/Order.antt =====
-- The order in which `RoundInput` of round-based/src/round/simple_store.rs receives messages.
use round_based.Prelude.{
  ℕ, ◌≡◌, ◌≢◌, refl, sym, ◌∙◌, inl, inr, Bool, true, false, Option, none, some, arith, get_elem?,
  get_elem?-set_ne, set_comm, Bool-cases, ◌==◌, if◌then◌else◌,
}
use round_based.Delivery.{Incoming}
use round_based.Round.SimpleStore.{
  RoundInput, add_message, fill_slot, is_expected_type, sender_index,
}
use round_based.Round.SimpleStore.Receive.{sender_index-injective, get_or-set_ne}

module _ {M : Type 0} where
  -- A message that passes both tests goes to its slot.
  passes : (s : RoundInput M) (a : Incoming M) → Bool
  passes s a =
      if is_expected_type s.expected_msg_type a.msg_type
      then (if a.sender == s.i then false else true)
      else false

  blocked :
      (s : RoundInput M) (a b : Incoming M) (k : ℕ) (o : Option (Option M))
      → passes s a ≡ false
      → (add_message (fill_slot s b k o).0 a ≡ ((fill_slot s b k o).0, (add_message s a).1))
        × (add_message s a ≡ (s, (add_message s a).1))
  unfolding passes fill_slot add_message
  blocked s a b k none h = ground arith
  blocked s a b k (some none) h = ground arith
  blocked s a b k (some (some m)) h = ground arith

  passing :
      (s : RoundInput M) (a : Incoming M)
      → passes s a ≡ true
      → (add_message s a
          ≡ fill_slot s a
              (sender_index s.i a.sender)
              (get_elem? s.messages (sender_index s.i a.sender)))
        × (a.sender ≢ s.i)
  unfolding passes add_message
  passing s a h = ground arith

  passes-fill_slot :
      (s : RoundInput M) (a b : Incoming M) (k : ℕ) (o : Option (Option M))
      → (passes (fill_slot s b k o).0 a ≡ passes s a) × ((fill_slot s b k o).0.i ≡ s.i)
  unfolding passes fill_slot
  passes-fill_slot s a b k none = (refl, refl)
  passes-fill_slot s a b k (some none) = (refl, refl)
  passes-fill_slot s a b k (some (some m)) = (refl, refl)

  slots_apart :
      (s : RoundInput M) (b : Incoming M) (k j : ℕ) (o : Option (Option M))
      → k ≢ j
      → get_elem? (fill_slot s b k o).0.messages j ≡ get_elem? s.messages j
  unfolding fill_slot
  slots_apart s b k j none h = refl
  slots_apart s b k j (some none) h = get_elem?-set_ne s.messages k j _ h
  slots_apart s b k j (some (some m)) h = refl

  fill_slot_comm :
      (s : RoundInput M) (a b : Incoming M) (k j : ℕ) (o p : Option (Option M))
      → k ≢ j
      → (fill_slot (fill_slot s a k o).0 b j p
          ≡ ((fill_slot (fill_slot s b j p).0 a k o).0, (fill_slot s b j p).1))
  unfolding fill_slot
  fill_slot_comm s a b k j none none h = refl
  fill_slot_comm s a b k j none (some none) h = refl
  fill_slot_comm s a b k j none (some (some m)) h = refl
  fill_slot_comm s a b k j (some (some n)) none h = refl
  fill_slot_comm s a b k j (some (some n)) (some none) h = refl
  fill_slot_comm s a b k j (some (some n)) (some (some m)) h = refl
  fill_slot_comm s a b k j (some none) none h = refl
  fill_slot_comm s a b k j (some none) (some none) h =
      rw (
        set_comm s.messages k j (some a.msg) (some b.msg) h,
        set_comm s.messages_ids k j a.id b.id h,
      )
  fill_slot_comm s a b k j (some none) (some (some m)) h =
      rw (get_or-set_ne s.messages_ids k j a.id h)

  after :
      (s : RoundInput M) (a b : Incoming M)
      → a.sender ≢ b.sender
      → passes s a ≡ true
      → passes s b ≡ true
      → add_message (add_message s a).0 b
        ≡ fill_slot
            (fill_slot s a
              (sender_index s.i a.sender)
              (get_elem? s.messages (sender_index s.i a.sender))).0
            b
            (sender_index s.i b.sender)
            (get_elem? s.messages (sender_index s.i b.sender))
  after s a b ne pa pb =
      let (ea, other_a) = passing s a pa in
      let (eb, other_b) = passing s b pb in
      let k = sender_index s.i a.sender in
      let o = get_elem? s.messages k in
      let (same, same_i) = passes-fill_slot s b a k o in
      let (e, _) = passing (fill_slot s a k o).0 b (same ∙ pb) in
      let apart = sender_index-injective s.i a.sender b.sender other_a other_b ne in
      rw ea (e ∙ rw (same_i, slots_apart s a k (sender_index s.i b.sender) o apart))

  -- Messages of two different senders can be received in either order: the store that results and
  -- the answer to each call are the same.
  pub add_message_comm :
      (s : RoundInput M) (a b : Incoming M)
      → a.sender ≢ b.sender
      → add_message (add_message s a).0 b
        ≡ ((add_message (add_message s b).0 a).0, (add_message s b).1)
  add_message_comm s a b ne = elim (Bool-cases (passes s a)) [
    | inr na ↦ elim (Bool-cases (passes s b)) [
      | inr nb ↦ ground (arith, blocked s a b 0 none na, blocked s b a 0 none nb)
      | inl pb ↦ ground (
        arith,
        blocked s a b (sender_index s.i b.sender) (get_elem? s.messages (sender_index s.i b.sender))
            na,
        passing s b pb,
      )
    ]
    | inl pa ↦ elim (Bool-cases (passes s b)) [
      | inr nb ↦ ground (
        arith,
        blocked s b a (sender_index s.i a.sender) (get_elem? s.messages (sender_index s.i a.sender))
            nb,
        passing s a pa,
      )
      | inl pb ↦
          let (ea, other_a) = passing s a pa in
          let (eb, other_b) = passing s b pb in
          let apart = sender_index-injective s.i a.sender b.sender other_a other_b ne in
          after s a b ne pa pb
          ∙ fill_slot_comm s a b _ _ (get_elem? s.messages (sender_index s.i a.sender))
              (get_elem? s.messages (sender_index s.i b.sender)) apart
          ∙ rw (after s b a (λ e. ne (sym e)) pb pa, eb)
    ]
  ]
