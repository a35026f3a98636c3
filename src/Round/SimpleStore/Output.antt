-- ===== src/Round/SimpleStore/Output.antt =====
-- When `RoundInput` of round-based/src/round/simple_store.rs is complete, and what the readers of
-- `RoundMsgs` yield.
use mathlib.Core.Option
use native.Mathlib.Nat.{zero-add}
use round_based.Prelude.{
  ℕ, zero, suc, ◌+◌, ◌-◌, ◌≤◌, ◌<◌, ◌≡◌, ◌≢◌, ◌↔◌, refl, sym, ap, ◌∙◌, inl, inr, true, Option, none,
  some, List, [], ◌∷◌, ◌++◌, arith, length, get_elem?, get_or, replicate, take, drop,
  length-replicate, get_elem?-lt, get_elem?-some, Option-cases, Bool-cases, ok, ltb, ◌==◌,
  if◌then◌else◌, u16_mod,
}
use round_based.Delivery.{MessageType, MsgId}
use round_based.Round.SimpleStore.{
  RoundInput, RoundMsgs, new, wants_more, output, flatten_slots, into_vec_including_me,
  iter_including_me, into_iter_including_me, collect, sender_index, party_index, into_iter_indexed,
}
use round_based.Round.SimpleStore.Slots.{
  vacant, vacant-replicate, vacant-pos, vacant-find, length-flatten_slots, insert-take-drop,
  get_elem?-take-drop, length-take-drop, length-indexed_from, get_elem?-indexed_from,
  collect-take-drop, sender_index-party_index,
}
use round_based.Round.SimpleStore.Invariant.{IsValid, received, slot, slot_message}
use round_based.Round.SimpleStore.Receive.{in_range, received_other}

module _ {M : Type 0} where
  slot-replicate :
      (k : ℕ) (n : ℕ) (id : ℕ)
      → slot_message id (get_elem? (replicate {A = Option M} n none) k) ≡ none
  slot-replicate k zero id = refl
  slot-replicate zero (suc n) id = refl
  slot-replicate (suc k) (suc n) id = slot-replicate k n id

  -- Within the asserted bounds the constructor does not panic, and the store that it builds is well
  -- formed, expects the given type and holds nothing.
  pub new-IsValid :
      (i n : ℕ) (t : MessageType)
      → 2 ≤ n
      → i < n
      → n < u16_mod
      → (s : RoundInput M) × (new i n t ≡ some s)
        × IsValid s
        × ((j : ℕ) → received s j ≡ none)
        × (s.i ≡ i)
        × (s.n ≡ n)
        × (s.expected_msg_type ≡ t)
  unfolding new received
  new-IsValid i n t two own fits = (
    record {
      i = i;
      n = n;
      messages_ids = replicate (n - 1) 0;
      messages = replicate (n - 1) none;
      left_messages = n - 1;
      expected_msg_type = t;
    },
    ground arith,
    record {
      two_parties = two;
      own_index = own;
      fits = fits;
      slots = omega (arith, length-replicate {A = Option M} (n - 1) none);
      ids = omega (arith, length-replicate {A = ℕ} (n - 1) 0);
      counted = omega (arith, vacant-replicate M (n - 1));
    },
    (λ j. elim (Bool-cases (j == i)) [
      | inl mine ↦ rw mine
      | inr other ↦ rw other (slot-replicate (sender_index i j) (n - 1) _)
    ]),
    refl,
    refl,
    refl,
  )

  vacant_at :
      (s : RoundInput M) (j : ℕ)
      → IsValid s
      → j ≢ s.i
      → j < s.n
      → received s j ≡ none
      → get_elem? s.messages (sender_index s.i j) ≡ some none
  vacant_at s j v other near free =
      let (o, e) = get_elem?-some s.messages (sender_index s.i j) (in_range s j v other near) in
      elim (Option-cases o) [
        | inl p ↦ e ∙ ap some p
        | inr (m, p) ↦
            let q = e ∙ ap some p in
            let r : slot s j ≡ none = sym (received_other s j other) ∙ free in
            absurd (unfold sender_index in (ground (arith, q, r)))
      ]

  some_vacant :
      (s : RoundInput M)
      → IsValid s
      → 0 < vacant s.messages
      → (j : ℕ) × (j < s.n) × (j ≢ s.i) × (received s j ≡ none)
  some_vacant s v h =
      let (k, e) = vacant-find s.messages h in
      let j = party_index s.i k in
      let other : j ≢ s.i = unfold party_index in (ground arith) in
      let near : j < s.n =
        unfold party_index in
        (ground (arith, v.slots, v.own_index, get_elem?-lt s.messages k none e)) in
      let free : received s j ≡ none =
        received_other s j other ∙ rw (sender_index-party_index s.i k, e) in
      (j, near, other, free)

  -- A well-formed store wants more messages exactly when some other party was not heard.
  pub wants_more_iff :
      (s : RoundInput M)
      → IsValid s
      → (wants_more s ≡ true) ↔ ((j : ℕ) × (j < s.n) × (j ≢ s.i) × (received s j ≡ none))
  unfolding wants_more
  wants_more_iff s v = (
    λ h. some_vacant s v (ground (arith, v.counted)),
    λ (j, near, other, free).
        ground (arith, v.counted, vacant-pos s.messages _ (vacant_at s j v other near free)),
  )

  full_slot :
      (xs : List (Option M)) (k id : ℕ)
      → vacant xs ≡ 0
      → get_elem? (flatten_slots xs) k ≡ Option.map (λ e. e.1) (slot_message id (get_elem? xs k))
  unfolding flatten_slots
  full_slot [] k id h = refl
  full_slot (none ∷ xs) k id h = absurd (omega arith)
  full_slot (some m ∷ xs) zero id h = refl
  full_slot (some m ∷ xs) (suc k) id h = full_slot xs k id h

  output-ok :
      (s : RoundInput M) (r : RoundMsgs M)
      → IsValid s
      → output s ≡ ok r
      → (vacant s.messages ≡ 0)
        × (r ≡ record { i = s.i; ids = s.messages_ids; messages = flatten_slots s.messages })
  unfolding output
  output-ok s r v e = (ground (arith, v.counted), ground arith)

  item :
      (s : RoundInput M) (my_msg : M) (j : ℕ)
      → vacant s.messages ≡ 0
      → (if j == s.i
          then some my_msg
          else get_elem? (flatten_slots s.messages) (if ltb j s.i then j else j - 1))
        ≡ (if j == s.i then some my_msg else Option.map (λ e. e.1) (received s j))
  item s my_msg j full = elim (Bool-cases (j == s.i)) [
    | inl mine ↦ rw mine
    | inr other ↦
        rw (other, received_other s j (ground arith))
          (unfold sender_index in (full_slot s.messages (sender_index s.i j) _ full))
  ]

  -- A complete store puts out, for each party, the message that it holds from it: in the vector
  -- with one's own message, the item at a party's index is that party's message.
  pub into_vec_including_me-received :
      (s : RoundInput M) (r : RoundMsgs M) (my_msg : M)
      → IsValid s
      → output s ≡ ok r
      → (all : List M) × (into_vec_including_me r my_msg ≡ some all)
        × ((j : ℕ)
            → get_elem? all j
              ≡ (if j == s.i then some my_msg else Option.map (λ e. e.1) (received s j)))
  unfolding into_vec_including_me
  into_vec_including_me-received s r my_msg v e =
      let (full, shape) = output-ok s r v e in
      let msgs = flatten_slots s.messages in
      let short : s.i ≤ length msgs =
        omega (arith, length-flatten_slots s.messages full, v.slots, v.own_index) in
      rw shape (
        take s.i msgs ++ my_msg ∷ drop s.i msgs,
        insert-take-drop msgs s.i my_msg short,
        λ j. get_elem?-take-drop msgs s.i my_msg j short ∙ item s my_msg j full,
      )

  -- For the output of a complete store, the three ways to read the messages with one's own among
  -- them agree: the vector, the borrowing iterator, and the consuming iterator `InsertsAfter` run
  -- to its end; each yields one message for every party.
  pub including_me-agree :
      (s : RoundInput M) (r : RoundMsgs M) (my_msg : M) (fuel : ℕ)
      → IsValid s
      → output s ≡ ok r
      → s.n < fuel
      → (into_vec_including_me r my_msg ≡ some (iter_including_me r my_msg))
        × (collect fuel (into_iter_including_me r my_msg) ≡ iter_including_me r my_msg)
        × (length (iter_including_me r my_msg) ≡ s.n)
  unfolding into_vec_including_me iter_including_me into_iter_including_me
  including_me-agree s r my_msg fuel v e f =
      let (full, shape) = output-ok s r v e in
      let msgs = flatten_slots s.messages in
      let len = length-flatten_slots s.messages full in
      let short : s.i ≤ length msgs = omega (arith, len, v.slots, v.own_index) in
      rw shape (
        insert-take-drop msgs s.i my_msg short,
        collect-take-drop msgs s.i my_msg fuel short (omega (arith, len, v.slots)),
        omega (arith, length-take-drop msgs s.i my_msg short, len, v.slots),
      )

  received_at :
      (s : RoundInput M) (k : ℕ)
      → received s (party_index s.i k)
        ≡ slot_message (get_or s.messages_ids k 0) (get_elem? s.messages k)
  received_at s k =
      received_other s (party_index s.i k) (unfold party_index in (ground arith))
      ∙ rw (sender_index-party_index s.i k)

  slot_map :
      (j id : ℕ) (o : Option (Option M))
      → Option.map {B = ℕ × MsgId × M} (λ m. (j, id, m)) (Option.map (λ e. e.1) (slot_message id o))
        ≡ Option.map (λ e. (j, e.0, e.1)) (slot_message id o)
  slot_map j id none = refl
  slot_map j id (some none) = refl
  slot_map j id (some (some m)) = refl

  -- For the output of a complete store, the indexed iterator yields each other party once, in
  -- ascending order, with the id and the message that the store holds from it.
  pub into_iter_indexed-received :
      (s : RoundInput M) (r : RoundMsgs M)
      → IsValid s
      → output s ≡ ok r
      → (length (into_iter_indexed r) + 1 ≡ s.n)
        × ((k : ℕ)
            → get_elem? (into_iter_indexed r) k
              ≡ Option.map (λ e. (party_index s.i k, e.0, e.1)) (received s (party_index s.i k)))
  unfolding into_iter_indexed
  into_iter_indexed-received s r v e =
      let (full, shape) = output-ok s r v e in
      let len = length-flatten_slots s.messages full in
      let both : length s.messages_ids ≡ length (flatten_slots s.messages) =
        omega (arith, len, v.slots, v.ids) in
      rw shape (
        omega (arith, length-indexed_from s.i 0 s.messages_ids _ both, len, v.slots),
        λ k.
            get_elem?-indexed_from s.i 0 k s.messages_ids _ both
            ∙ rw (zero-add, full_slot s.messages k (get_or s.messages_ids k 0) full)
                (slot_map (party_index s.i k) _ (get_elem? s.messages k)
                  ∙ ap (Option.map {B = ℕ × MsgId × M} (λ e. (party_index s.i k, e.0, e.1)))
                      (sym (received_at s k))),
      )
