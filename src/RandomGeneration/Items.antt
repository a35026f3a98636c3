-- ===== src/RandomGeneration/Items.antt =====
-- The loop of examples/random-generation-protocol/src/lib.rs over the commitments and the openings,
-- in terms of what the two stores hold of each party.
use mathlib.Core.List.{zip, zip_with}
use mathlib.Core.Option
use round_based.Prelude.{
  ℕ, zero, suc, ◌+◌, ◌≡◌, ◌≢◌, refl, sym, ap, ◌∙◌, some, List, [], ◌∷◌, arith, get_elem?, length,
  ok,
}
use round_based.Delivery.{MsgId}
use round_based.Round.SimpleStore.{
  RoundInput, RoundMsgs, into_iter_indexed, party_index, sender_index, output,
}
use round_based.Round.SimpleStore.Invariant.{IsValid, received}
use round_based.Round.SimpleStore.Output.{into_iter_indexed-received}
use round_based.RandomGeneration.{CommitMsg, DecommitMsg, Opened}

module _ {A B : Type 0} where
  get_elem?-zip :
      (xs : List A) (ys : List B) (k : ℕ) (a : A) (b : B)
      → get_elem? xs k ≡ some a
      → get_elem? ys k ≡ some b
      → get_elem? (zip xs ys) k ≡ some (a, b)
  unfolding zip zip_with
  get_elem?-zip [] ys k a b p q = ground arith
  get_elem?-zip (x ∷ xs) [] k a b p q = ground arith
  get_elem?-zip (x ∷ xs) (y ∷ ys) zero a b p q = ground arith
  get_elem?-zip (x ∷ xs) (y ∷ ys) (suc k) a b p q = get_elem?-zip xs ys k a b p q

  get_elem?-zip-some :
      (xs : List A) (ys : List B) (k : ℕ) (x : A × B)
      → get_elem? (zip xs ys) k ≡ some x
      → (get_elem? xs k ≡ some x.0) × (get_elem? ys k ≡ some x.1)
  unfolding zip zip_with
  get_elem?-zip-some [] ys k x h = ground arith
  get_elem?-zip-some (a ∷ xs) [] k x h = ground arith
  get_elem?-zip-some (a ∷ xs) (b ∷ ys) zero x h = (ground arith, ground arith)
  get_elem?-zip-some (a ∷ xs) (b ∷ ys) (suc k) x h = get_elem?-zip-some xs ys k x h

  length-zip : (xs : List A) (ys : List B) → length xs ≡ length ys → length (zip xs ys) ≡ length xs
  unfolding zip zip_with
  length-zip [] ys e = refl
  length-zip (x ∷ xs) [] e = absurd (omega (arith, e))
  length-zip (x ∷ xs) (y ∷ ys) e = ap suc (length-zip xs ys (omega (arith, e)))

pub party_index-sender_index : (i j : ℕ) → j ≢ i → party_index i (sender_index i j) ≡ j
unfolding party_index sender_index
party_index-sender_index i j h = ground arith

module _ {M : Type 0} where
  indexed_received :
      (s : RoundInput M) (r : RoundMsgs M) (k : ℕ) (x : ℕ × MsgId × M)
      → IsValid s
      → output s ≡ ok r
      → get_elem? (into_iter_indexed r) k ≡ some x
      → (x.0 ≡ party_index s.i k) × (received s x.0 ≡ some (x.1, x.2))
  indexed_received s r k x v e h =
      let (held, p, q) =
        (Option.map-eq-some_iff _ (received s (party_index s.i k))).0
          (sym ((into_iter_indexed-received s r v e).1 k) ∙ h) in
      let at : x.0 ≡ party_index s.i k = ap (λ y. y.0) (sym q) in
      (at, rw at (p ∙ ap (λ y. some (y.1, y.2)) q))

  pub not_own : (s : RoundInput M) (j : ℕ) (e : MsgId × M) → received s j ≡ some e → j ≢ s.i
  unfolding received
  not_own s j e h = ground arith

  received_indexed :
      (s : RoundInput M) (r : RoundMsgs M) (j id : ℕ) (m : M)
      → IsValid s
      → output s ≡ ok r
      → received s j ≡ some (id, m)
      → get_elem? (into_iter_indexed r) (sender_index s.i j) ≡ some (j, id, m)
  received_indexed s r j id m v e h =
      (into_iter_indexed-received s r v e).1 (sender_index s.i j)
      ∙ rw (party_index-sender_index s.i j (not_own s j (id, m) h), h) refl

abbrev pub items : RoundMsgs CommitMsg → RoundMsgs DecommitMsg → List Opened
items commitments randomness = zip (into_iter_indexed commitments) (into_iter_indexed randomness)

module _ (s1 : RoundInput CommitMsg) (s2 : RoundInput DecommitMsg) (r1 : RoundMsgs CommitMsg)
    (r2 : RoundMsgs DecommitMsg) (v1 : IsValid s1) (v2 : IsValid s2) (e1 : output s1 ≡ ok r1)
    (e2 : output s2 ≡ ok r2) (same_i : s1.i ≡ s2.i) (same_n : s1.n ≡ s2.n) where
  -- The items stand for the parties in ascending order.
  pub item_received :
      (k : ℕ) (x : Opened)
      → get_elem? (items r1 r2) k ≡ some x
      → (x.0.0 ≡ party_index s1.i k)
        × (received s1 x.0.0 ≡ some (x.0.1, x.0.2))
        × (received s2 x.0.0 ≡ some (x.1.1, x.1.2))
  item_received k x h =
      let (first, second) =
        get_elem?-zip-some (into_iter_indexed r1) (into_iter_indexed r2) k x h in
      let (at, held) = indexed_received s1 r1 k x.0 v1 e1 first in
      let (at', held') = indexed_received s2 r2 k x.1 v2 e2 second in
      (at, held, rw (at ∙ ap (λ i. party_index i k) same_i ∙ sym at') held')

  pub received_item :
      (j id id' : ℕ) (c : CommitMsg) (d : DecommitMsg)
      → received s1 j ≡ some (id, c)
      → received s2 j ≡ some (id', d)
      → get_elem? (items r1 r2) (sender_index s1.i j) ≡ some ((j, id, c), (j, id', d))
  received_item j id id' c d p q =
      get_elem?-zip (into_iter_indexed r1) (into_iter_indexed r2) (sender_index s1.i j) _ _
        (received_indexed s1 r1 j id c v1 e1 p) (rw same_i (received_indexed s2 r2 j id' d v2 e2 q))

  pub length-items : length (items r1 r2) + 1 ≡ s1.n
  length-items = omega (
    arith,
    length-zip (into_iter_indexed r1) (into_iter_indexed r2) (
        omega (
          arith,
          (into_iter_indexed-received s1 r1 v1 e1).0,
          (into_iter_indexed-received s2 r2 v2 e2).0,
          same_n,
        )),
    (into_iter_indexed-received s1 r1 v1 e1).0,
  )
