-- ===== src/Round/SimpleStore/Sequence.antt =====
-- Sequences of messages that `RoundInput` of round-based/src/round/simple_store.rs receives.
use round_based.Prelude.{
  ℕ, ◌<◌, ◌≡◌, ◌≢◌, refl, sym, ap, ◌∙◌, subst, ◌⊎◌, inl, inr, true, false, none, List, [], ◌∷◌,
  ◌==◌, ==_refl, arith, Bool-cases, Result, ok,
}
use round_based.Delivery.{Incoming, MessageType}
use round_based.Round.SimpleStore.{
  RoundInput, RoundMsgs, RoundInputError, add_message, is_expected_type, wants_more, output,
}
use round_based.Round.SimpleStore.Invariant.{IsValid, received, add_message-IsValid}
use round_based.Round.SimpleStore.Receive.{
  Outcome, mismatched, own, unknown, twice, stored, add_message-Outcome, is_expected_type-meets,
}
use round_based.Round.SimpleStore.Output.{wants_more_iff}
use round_based.Round.Input.{round_input-IsProper}
use round_based.Round.SimpleStore.Order.{add_message_comm}

module _ {M : Type 0} where
  abbrev pub add_all : RoundInput M → List (Incoming M) → RoundInput M
  add_all s [] = s
  add_all s (m ∷ ms) = add_all (add_message s m).0 ms

  -- The second list has the messages of the first in another order, but those of one sender in the
  -- same order.
  pub data Reordered : List (Incoming M) → List (Incoming M) → Type 0 where
    same : (ms : List (Incoming M)) → Reordered ms ms
    swapped :
        (a b : Incoming M) (ms : List (Incoming M))
        → a.sender ≢ b.sender
        → Reordered (a ∷ b ∷ ms) (b ∷ a ∷ ms)
    behind :
        (m : Incoming M) (ms ns : List (Incoming M)) → Reordered ms ns → Reordered (m ∷ ms) (m ∷ ns)
    further : (ls ms ns : List (Incoming M)) → Reordered ls ms → Reordered ms ns → Reordered ls ns

  -- However the network interleaves the messages of the senders, as long as each sender's own stay in
  -- order, the store ends in the same state.
  pub add_all-Reordered :
      (s : RoundInput M) (ms ns : List (Incoming M)) → Reordered ms ns → add_all s ms ≡ add_all s ns
  add_all-Reordered s _ _ (same ms) = refl
  add_all-Reordered s _ _ (swapped a b ms apart) =
      ap (λ x. add_all x.0 ms) (add_message_comm s a b apart)
  add_all-Reordered s _ _ (behind m ms ns r) = add_all-Reordered (add_message s m).0 ms ns r
  add_all-Reordered s _ _ (further ls ms ns r q) =
      add_all-Reordered s ls ms r ∙ add_all-Reordered s ms ns q

  -- A message of party `j` of the expected type is among the messages.
  abbrev pub Heard : MessageType → ℕ → List (Incoming M) → Type 0
  Heard t j [] = ⊥
  Heard t j (m ∷ ms) = ((m.sender ≡ j) × (is_expected_type t m.msg_type ≡ true)) ⊎ Heard t j ms

  abbrev Kept : RoundInput M → RoundInput M → Type 0
  Kept s s' = (s'.i ≡ s.i) × (s'.n ≡ s.n) × (s'.expected_msg_type ≡ s.expected_msg_type)

  unchanged :
      (s : RoundInput M) (r : RoundInput M × Result (Unit {0}) RoundInputError) (x : Result _ _)
      → r ≡ (s, x)
      → r.0 ≡ s
  unchanged s r x e = ap (λ y. y.0) e

  kept :
      (s : RoundInput M) (m : Incoming M)
      → IsValid s
      → Outcome s m (add_message s m)
      → Kept s (add_message s m).0
  kept s m v (mismatched _ e) = rw (unchanged s _ _ e) (refl, refl, refl)
  kept s m v (own _ _ e) = rw (unchanged s _ _ e) (refl, refl, refl)
  kept s m v (unknown _ _ e) = rw (unchanged s _ _ e) (refl, refl, refl)
  kept s m v (twice _ _ _ _ _ e) = rw (unchanged s _ _ e) (refl, refl, refl)
  kept s m v (stored _ _ _ _ _ _ _ k) = k

  -- What is held is not lost.
  still :
      (s : RoundInput M) (m : Incoming M) (j : ℕ)
      → Outcome s m (add_message s m)
      → received s j ≢ none
      → received (add_message s m).0 j ≢ none
  still s m j (mismatched _ e) h = rw (unchanged s _ _ e) h
  still s m j (own _ _ e) h = rw (unchanged s _ _ e) h
  still s m j (unknown _ _ e) h = rw (unchanged s _ _ e) h
  still s m j (twice _ _ _ _ _ e) h = rw (unchanged s _ _ e) h
  still s m j (stored _ _ _ _ _ _ now _) h = elim (Bool-cases (j == m.sender)) [
    | inl here ↦ rw (now j, here) (λ e. ground arith)
    | inr there ↦ rw (now j, there) h
  ]

  -- An acceptable message leaves its sender heard, be it the first or not.
  sender_received :
      (s : RoundInput M) (m : Incoming M)
      → Outcome s m (add_message s m)
      → is_expected_type s.expected_msg_type m.msg_type ≡ true
      → m.sender ≢ s.i
      → m.sender < s.n
      → received (add_message s m).0 m.sender ≢ none
  sender_received s m (mismatched bad _) good other near =
      let met = is_expected_type-meets s.expected_msg_type m.msg_type in absurd (ground arith)
  sender_received s m (own _ mine _) good other near = absurd (other mine)
  sender_received s m (unknown _ far _) good other near = absurd (omega arith)
  sender_received s m (twice id x _ _ had e) good other near =
      rw (unchanged s _ _ e) (λ free. ground arith)
  sender_received s m (stored _ _ _ _ _ _ now _) good other near =
      rw (now m.sender, ==_refl m.sender) (λ e. ground arith)

  all_kept :
      (s : RoundInput M) (ms : List (Incoming M))
      → IsValid s
      → IsValid (add_all s ms) × ((add_all s ms).i ≡ s.i) × ((add_all s ms).n ≡ s.n)
  all_kept s [] v = (v, refl, refl)
  all_kept s (m ∷ ms) v =
      let k = kept s m v (add_message-Outcome s m v) in
      let ih = all_kept (add_message s m).0 ms (add_message-IsValid s m v) in
      (ih.0, ih.1 ∙ k.0, ih.2 ∙ k.1)

  received_in_all :
      (s : RoundInput M) (ms : List (Incoming M)) (j : ℕ)
      → IsValid s
      → j ≢ s.i
      → j < s.n
      → (received s j ≢ none) ⊎ Heard s.expected_msg_type j ms
      → received (add_all s ms) j ≢ none
  received_in_all s [] j v other near (inl h) = h
  received_in_all s [] j v other near (inr h) = absurd h
  received_in_all s (m ∷ ms) j v other near h =
      let o = add_message-Outcome s m v in
      let k = kept s m v o in
      received_in_all (add_message s m).0 ms j (add_message-IsValid s m v) (λ e. other (e ∙ k.0))
        (omega (arith, near, k.1)) (received_next k o h)
    where
      received_next :
          Kept s (add_message s m).0
          → Outcome s m (add_message s m)
          → (received s j ≢ none) ⊎ Heard s.expected_msg_type j (m ∷ ms)
          → (received (add_message s m).0 j ≢ none)
            ⊎ Heard (add_message s m).0.expected_msg_type j ms
      received_next k o (inl h) = inl (still s m j o h)
      received_next k o (inr (inl (from_j, good))) = inl (
          subst (λ i. received (add_message s m).0 i ≢ none) from_j
            (sender_received s m o good (λ e. other (sym from_j ∙ e))
              (omega (arith, near, from_j))))
      received_next k o (inr (inr h)) = inr (subst (λ t. Heard t j ms) (sym (k.2)) h)

  -- Nobody can keep a well-formed store from becoming complete: once a message of the expected
  -- type has come from every other party that was not heard before, the store has an output,
  -- whatever other messages, doubled, of a wrong type, or of unknown senders, came between.
  pub add_all-completes :
      (s : RoundInput M) (ms : List (Incoming M))
      → IsValid s
      → ((j : ℕ) → j ≢ s.i → j < s.n → (received s j ≢ none) ⊎ Heard s.expected_msg_type j ms)
      → (wants_more (add_all s ms) ≡ false) × (r : RoundMsgs M) × (output (add_all s ms) ≡ ok r)
  add_all-completes s ms v all =
      let (valid, index, parties) = all_kept s ms v in
      elim (Bool-cases (wants_more (add_all s ms))) [
        | inl more ↦
            let (j, near, other, free) = (wants_more_iff (add_all s ms) valid).0 more in
            absurd (
              received_in_all s ms j v (λ e. other (e ∙ sym index)) (omega (arith, near, parties))
                (all j (λ e. other (e ∙ sym index)) (omega (arith, near, parties))) free)
        | inr over ↦
            let (r, e) = (round_input-IsProper M).outputs (add_all s ms) over in (over, r, e)
      ]
