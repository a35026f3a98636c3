-- ===== src/Round/SimpleStore/Slots.antt =====
-- Facts about the vector of slots of round-based/src/round/simple_store.rs, and `Vec::insert`.
use mathlib.Core.Option
use native.Mathlib.Nat.{add-zero}
use round_based.Prelude.{
  get_or, ℕ, zero, suc, ◌+◌, ◌-◌, ◌≤◌, ◌<◌, ◌≡◌, refl, ap, ◌∙◌, Option, none, some, List, [], ◌∷◌,
  ◌++◌, arith, length, get_elem?, set, take, drop, replicate, ltb, ◌==◌, if◌then◌else◌, ◌⊎◌,
}
use round_based.Round.SimpleStore.{
  flatten_slots, insert, next, collect, sender_index, party_index, indexed_from,
}

module _ {M : Type 0} where
  -- How many slots still wait for a message.
  abbrev pub vacant : List (Option M) → ℕ
  vacant [] = 0
  vacant (none ∷ xs) = suc (vacant xs)
  vacant (some _ ∷ xs) = vacant xs

  pub vacant-set :
      (xs : List (Option M)) (k : ℕ) (m : M)
      → get_elem? xs k ≡ some none
      → vacant (set xs k (some m)) + 1 ≡ vacant xs
  vacant-set [] k m h = ground arith
  vacant-set (none ∷ xs) zero m h = omega arith
  vacant-set (some x ∷ xs) zero m h = ground arith
  vacant-set (none ∷ xs) (suc k) m h = omega (arith, vacant-set xs k m h)
  vacant-set (some x ∷ xs) (suc k) m h = vacant-set xs k m h

  pub vacant-pos : (xs : List (Option M)) (k : ℕ) → get_elem? xs k ≡ some none → 0 < vacant xs
  vacant-pos [] k h = ground arith
  vacant-pos (none ∷ xs) k h = omega arith
  vacant-pos (some x ∷ xs) zero h = ground arith
  vacant-pos (some x ∷ xs) (suc k) h = vacant-pos xs k h

  pub vacant-find : (xs : List (Option M)) → 0 < vacant xs → (k : ℕ) × (get_elem? xs k ≡ some none)
  vacant-find [] h = elim h [ ]
  vacant-find (none ∷ xs) h = (0, refl)
  vacant-find (some x ∷ xs) h = let (k, e) = vacant-find xs h in (suc k, e)

  pub vacant-le-length : (xs : List (Option M)) → vacant xs ≤ length xs
  vacant-le-length [] = omega arith
  vacant-le-length (none ∷ xs) = omega (arith, vacant-le-length xs)
  vacant-le-length (some x ∷ xs) = omega (arith, vacant-le-length xs)

  pub length-flatten_slots :
      (xs : List (Option M)) → vacant xs ≡ 0 → length (flatten_slots xs) ≡ length xs
  unfolding flatten_slots
  length-flatten_slots [] h = refl
  length-flatten_slots (none ∷ xs) h = absurd (omega arith)
  length-flatten_slots (some x ∷ xs) h = ap suc (length-flatten_slots xs h)

  -- With no slot vacant, flattening keeps every position.
  get_elem?-flatten_slots :
      (xs : List (Option M)) (k : ℕ) (slot : Option M)
      → vacant xs ≡ 0
      → get_elem? xs k ≡ some slot
      → get_elem? (flatten_slots xs) k ≡ slot
  unfolding flatten_slots
  get_elem?-flatten_slots [] k slot h e = ground arith
  get_elem?-flatten_slots (none ∷ xs) k slot h e = absurd (omega arith)
  get_elem?-flatten_slots (some x ∷ xs) zero slot h e = ground arith
  get_elem?-flatten_slots (some x ∷ xs) (suc k) slot h e = get_elem?-flatten_slots xs k slot h e

  pub insert-take-drop :
      (xs : List M) (k : ℕ) (m : M)
      → k ≤ length xs
      → insert xs k m ≡ some (take k xs ++ m ∷ drop k xs)
  unfolding insert
  insert-take-drop xs zero m h = refl
  insert-take-drop [] (suc k) m h = absurd (omega arith)
  insert-take-drop (x ∷ xs) (suc k) m h = rw (insert-take-drop xs k m (omega arith))

  pub get_elem?-take-drop :
      (xs : List M) (k : ℕ) (m : M) (j : ℕ)
      → k ≤ length xs
      → get_elem? (take k xs ++ m ∷ drop k xs) j
        ≡ (if j == k then some m else get_elem? xs (if ltb j k then j else j - 1))
  get_elem?-take-drop xs zero m zero h = refl
  get_elem?-take-drop xs zero m (suc j) h = ground arith
  get_elem?-take-drop [] (suc k) m j h = absurd (omega arith)
  get_elem?-take-drop (x ∷ xs) (suc k) m zero h = ground arith
  get_elem?-take-drop (x ∷ xs) (suc k) m (suc zero) h = ground (arith, get_elem?-take-drop xs k m 0)
  get_elem?-take-drop (x ∷ xs) (suc k) m (suc (suc j)) h =
      ground (arith, get_elem?-take-drop xs k m (suc j))

  pub length-take-drop :
      (xs : List M) (k : ℕ) (m : M)
      → k ≤ length xs
      → length (take k xs ++ m ∷ drop k xs) ≡ length xs + 1
  length-take-drop xs zero m h = omega arith
  length-take-drop [] (suc k) m h = absurd (omega arith)
  length-take-drop (x ∷ xs) (suc k) m h = omega (arith, length-take-drop xs k m (omega arith))

  pub length-indexed_from :
      (i j : ℕ) (ids : List ℕ) (xs : List M)
      → length ids ≡ length xs
      → length (indexed_from i j ids xs) ≡ length xs
  unfolding indexed_from
  length-indexed_from i j [] [] h = refl
  length-indexed_from i j [] (x ∷ xs) h = ground arith
  length-indexed_from i j (id ∷ ids) [] h = ground arith
  length-indexed_from i j (id ∷ ids) (x ∷ xs) h =
      ap suc (length-indexed_from i (j + 1) ids xs (omega arith))

  pub get_elem?-indexed_from :
      (i j k : ℕ) (ids : List ℕ) (xs : List M)
      → length ids ≡ length xs
      → get_elem? (indexed_from i j ids xs) k
        ≡ Option.map (λ m. (party_index i (j + k), get_or ids k 0, m)) (get_elem? xs k)
  unfolding indexed_from
  get_elem?-indexed_from i j k [] [] h = refl
  get_elem?-indexed_from i j k [] (x ∷ xs) h = ground arith
  get_elem?-indexed_from i j k (id ∷ ids) [] h = ground arith
  get_elem?-indexed_from i j zero (id ∷ ids) (x ∷ xs) h = rw add-zero
  get_elem?-indexed_from i j (suc k) (id ∷ ids) (x ∷ xs) h =
      let shift : j + 1 + k ≡ j + suc k = omega arith in
      get_elem?-indexed_from i (j + 1) k ids xs (omega arith) ∙ rw shift

  collect-rest :
      (xs : List M) (fuel : ℕ)
      → length xs < fuel
      → collect fuel (record { offset = 0; inner = xs; item = none }) ≡ xs
  unfolding collect next
  collect-rest xs zero h = elim h [ ]
  collect-rest [] (suc fuel) h = refl
  collect-rest (x ∷ xs) (suc fuel) h = ap (◌∷◌ x) (collect-rest xs fuel (omega arith))

  -- The iterator yields the items before the offset, its own item, and the rest.
  pub collect-take-drop :
      (xs : List M) (k : ℕ) (m : M) (fuel : ℕ)
      → k ≤ length xs
      → length xs + 1 < fuel
      → collect fuel (record { offset = k; inner = xs; item = some m }) ≡ take k xs ++ m ∷ drop k xs
  unfolding collect next
  collect-take-drop xs k m zero h f = elim f [ ]
  collect-take-drop xs zero m (suc fuel) h f = ap (◌∷◌ m) (collect-rest xs fuel (omega arith))
  collect-take-drop [] (suc k) m (suc fuel) h f = absurd (omega arith)
  collect-take-drop (x ∷ xs) (suc k) m (suc fuel) h f =
      ap (◌∷◌ x) (collect-take-drop xs k m fuel (omega arith) (omega arith))

pub vacant-replicate : (M : Type 0) (n : ℕ) → vacant (replicate {A = Option M} n none) ≡ n
vacant-replicate M zero = refl
vacant-replicate M (suc n) = ap suc (vacant-replicate M n)

-- `sender_index` numbers the other parties without a gap, and `party_index` numbers them back.
party_index-sender_index : (i j : ℕ) → i < j ⊎ j < i → party_index i (sender_index i j) ≡ j
unfolding party_index sender_index
party_index-sender_index i j h = ground arith

pub sender_index-party_index : (i k : ℕ) → sender_index i (party_index i k) ≡ k
unfolding party_index sender_index
sender_index-party_index i k = ground arith
