-- ===== src/Round/SimpleStore/Refines.antt =====
-- `RoundInput` of round-based/src/round/simple_store.rs refines a map from parties to what was held
-- of them: the slots, the counter and the offset of the local party do not show.
use round_based.Prelude.{
  ℕ, ◌<◌, ◌≡◌, ◌≢◌, ◌↔◌, refl, sym, ap, ◌∙◌, fun_ext, inl, inr, true, false, not, Option, none,
  some, List, [], ◌∷◌, arith, Bool-cases, Result, ok, err, ltb, ◌==◌, if◌then◌else◌,
}
use round_based.Delivery.{Incoming, MessageType, MsgId, PartyIndex}
use round_based.Round.SimpleStore.{
  RoundInput, RoundInputError, attempt_to_overwrite_received_msg, sender_index_out_of_range,
  mismatched_message_type, add_message, wants_more,
}
use round_based.Round.SimpleStore.Invariant.{IsValid, received, add_message-IsValid}
use round_based.Round.SimpleStore.Output.{wants_more_iff}
use round_based.Round.SimpleStore.Receive.{
  Outcome, mismatched, own, unknown, twice, stored, add_message-Outcome, out_of_range,
  received_other, meets,
}

abbrev pub Contents : Type 0 → Type 0
Contents M = PartyIndex → Option (MsgId × M)

abbrev pub Added : Type 0
Added = Result (Unit {0}) RoundInputError

module _ {M : Type 0} where
  unfoldable pub put : Contents M → Incoming M → Contents M
  put held msg j = if j == msg.sender then some (msg.id, msg.msg) else held j

  unfoldable pub first_time : Contents M → Incoming M → Option (MsgId × M) → Contents M × Added
  first_time held msg none = (put held msg, ok tt)
  first_time held msg (some (id, _)) =
      (held, err (attempt_to_overwrite_received_msg id msg.id msg.sender))

  -- What a store of party `i` of `n` that expects type `t` promises of one message.
  unfoldable pub add_to_map :
      PartyIndex → ℕ → MessageType → Contents M → Incoming M → Contents M × Added
  add_to_map i n t held msg =
      if not (meets t msg.msg_type)
      then (held, err (mismatched_message_type msg.id t msg.msg_type))
      else if msg.sender == i
      then (held, ok tt)
      else if ltb msg.sender n
      then first_time held msg (held msg.sender)
      else (held, err (sender_index_out_of_range msg.id msg.sender n))

  -- A sequence of messages, with the answer to each.
  unfoldable pub add_each : RoundInput M → List (Incoming M) → RoundInput M × List Added
  add_each s [] = (s, [])
  add_each s (m ∷ ms) =
      let (s', r) = add_message s m in let (s'', rs) = add_each s' ms in (s'', r ∷ rs)

  unfoldable pub add_each_to_map :
      PartyIndex → ℕ → MessageType → Contents M → List (Incoming M) → Contents M × List Added
  add_each_to_map i n t held [] = (held, [])
  add_each_to_map i n t held (m ∷ ms) =
      let (held', r) = add_to_map i n t held m in
      let (held'', rs) = add_each_to_map i n t held' ms in (held'', r ∷ rs)

  -- A store holds nothing of a party that is out of range.
  received-lt :
      (s : RoundInput M) (j : PartyIndex) (e : MsgId × M)
      → IsValid s
      → received s j ≡ some e
      → ltb j s.n ≡ true
  unfolding received
  received-lt s j e v h = elim (Bool-cases (ltb j s.n)) [
    | inl near ↦ near
    | inr far ↦
        let other : j ≢ s.i = ground (arith, v.own_index) in
        let nothing = out_of_range s j v (ground arith) in
        let empty : received s j ≡ none = received_other s j other ∙ rw nothing refl in
        absurd (ground (arith, sym h ∙ empty))
  ]

  step_refines :
      (s : RoundInput M) (msg : Incoming M) (r : RoundInput M × Added)
      → IsValid s
      → Outcome s msg r
      → ((received r.0, r.1) ≡ add_to_map s.i s.n s.expected_msg_type (received s) msg)
        × (r.0.i ≡ s.i)
        × (r.0.n ≡ s.n)
        × (r.0.expected_msg_type ≡ s.expected_msg_type)
  unfolding add_to_map first_time put
  step_refines s msg r v (mismatched bad e) = rw (e, bad) (refl, refl, refl, refl)
  step_refines s msg r v (own good mine e) =
      let mine' : (msg.sender == s.i) ≡ true = ground arith in
      rw (e, good, mine') (refl, refl, refl, refl)
  step_refines s msg r v (unknown good far e) =
      let other' : (msg.sender == s.i) ≡ false = ground (arith, v.own_index) in
      let far' : ltb msg.sender s.n ≡ false = ground arith in
      rw (e, good, other', far') (refl, refl, refl, refl)
  step_refines s msg r v (twice id m good other had e) =
      let other' : (msg.sender == s.i) ≡ false = ground arith in
      let near' : ltb msg.sender s.n ≡ true = received-lt s msg.sender (id, m) v had in
      rw (e, good, other', near', had) (refl, refl, refl, refl)
  step_refines s msg r v (stored good other near free done less holds same) =
      let other' : (msg.sender == s.i) ≡ false = ground arith in
      let near' : ltb msg.sender s.n ≡ true = ground arith in
      rw (good, other', near', free) ((λ k. (fun_ext holds k, done k)), same.0, same.1, same.2)

  add_each_to_map_cons :
      (i n : ℕ) (t : MessageType) (held : Contents M) (m : Incoming M) (ms : List (Incoming M))
      (held' : Contents M) (r : Added)
      → (held', r) ≡ add_to_map i n t held m
      → add_each_to_map i n t held (m ∷ ms)
        ≡ ((add_each_to_map i n t held' ms).0, r ∷ (add_each_to_map i n t held' ms).1)
  unfolding add_each_to_map
  add_each_to_map_cons i n t held m ms held' r e = rw (sym e) refl

  refines_each :
      (s : RoundInput M) (ms : List (Incoming M)) (i n : ℕ) (t : MessageType)
      → IsValid s
      → s.i ≡ i
      → s.n ≡ n
      → s.expected_msg_type ≡ t
      → (received (add_each s ms).0, (add_each s ms).1) ≡ add_each_to_map i n t (received s) ms
  unfolding add_each add_each_to_map
  refines_each s [] i n t v same_i same_n same_t = refl
  refines_each s (m ∷ ms) i n t v same_i same_n same_t =
      let (s', r) = add_message s m in
      let (step, i', n', t') = step_refines s m (add_message s m) v (add_message-Outcome s m v) in
      let ih =
        refines_each s' ms i n t (add_message-IsValid s m v) (i' ∙ same_i) (n' ∙ same_n)
          (t' ∙ same_t) in
      let step' : (received s', r) ≡ add_to_map i n t (received s) m =
        step ∙ (λ k. add_to_map (same_i k) (same_n k) (same_t k) (received s) m) in
      ap (λ x. (x.0, r ∷ x.1)) ih
      ∙ sym (add_each_to_map_cons i n t (received s) m ms (received s') r step')

  each_kept :
      (s : RoundInput M) (ms : List (Incoming M))
      → IsValid s
      → IsValid (add_each s ms).0 × ((add_each s ms).0.i ≡ s.i) × ((add_each s ms).0.n ≡ s.n)
  unfolding add_each
  each_kept s [] v = (v, refl, refl)
  each_kept s (m ∷ ms) v =
      let (s', r) = add_message s m in
      let (_, i', n', _) = step_refines s m (add_message s m) v (add_message-Outcome s m v) in
      let (v', i'', n'') = each_kept s' ms (add_message-IsValid s m v) in (v', i'' ∙ i', n'' ∙ n')

  -- For any sequence of messages, a well-formed store answers each message as the map from parties to
  -- what was heard of them does, and holds afterwards what the map holds; and it wants more messages
  -- exactly when the map has nothing of some other party.
  pub add_each-refines :
      (s : RoundInput M) (ms : List (Incoming M))
      → IsValid s
      → let (held, answers) = add_each_to_map s.i s.n s.expected_msg_type (received s) ms in
        let (s', answers') = add_each s ms in
        (answers' ≡ answers)
        × (received s' ≡ held)
        × ((wants_more s' ≡ true) ↔ ((j : ℕ) × (j < s.n) × (j ≢ s.i) × (held j ≡ none)))
  add_each-refines s ms v =
      let same = refines_each s ms s.i s.n s.expected_msg_type v refl refl refl in
      let (v', same_i, same_n) = each_kept s ms v in
      let contents = ap (λ x. x.0) same in
      let wanted = wants_more_iff (add_each s ms).0 v' in
      (
        ap (λ x. x.1) same,
        contents,
        (
          (λ h.
              let (j, near, other, free) = wanted.0 h in
              (
                j,
                ground (arith, same_n),
                ground (arith, same_i),
                sym (ap (λ f. f j) contents) ∙ free,
              )),
          (λ (j, near, other, free).
              wanted.1
                (j, ground (arith, same_n), ground (arith, same_i), ap (λ f. f j) contents ∙ free)),
        ),
      )
