-- ===== src/RandomGeneration/Combined.antt =====
-- The output of examples/random-generation-protocol/src/lib.rs: the exclusive or of what all parties
-- opened, whichever party computes it.
use mathlib.Core.Option
use round_based.Prelude.{
  ℕ, zero, suc, ◌+◌, ◌-◌, ◌<◌, ◌≡◌, ◌≢◌, refl, sym, ap, ◌∙◌, inl, inr, true, none, some, List, [],
  ◌∷◌, ◌++◌, map, arith, get_elem?, length, take, drop, replicate, Bool-cases, ok, if◌then◌else◌,
  ◌==◌, ltb, get_elem?-some, get_elem?-ge,
}
use round_based.Delivery.{MsgId}
use round_based.Round.SimpleStore.{RoundInput, RoundMsgs, output, sender_index, party_index}
use round_based.Round.SimpleStore.Slots.{get_elem?-take-drop}
use round_based.Round.SimpleStore.Invariant.{IsValid, received}
use round_based.RandomGeneration.Items.{
  items, item_received, length-items, not_own, party_index-sender_index,
}
use round_based.RandomGeneration.Blames.{mixed, is_opened_item, verify-honest, honest_item, Cheated}
use round_based.RandomGeneration.Xor.{zero-bit_xor, xor_into_swap}
use round_based.RandomGeneration.{Bytes, CommitMsg, DecommitMsg, Blame, Opened, verify, xor_into}

unfoldable pub mix_all : Bytes → List Bytes → Bytes
mix_all output [] = output
mix_all output (r ∷ rs) = mix_all (xor_into output r) rs

unfoldable pub tabulate : (ℕ → Bytes) → ℕ → List Bytes
tabulate f zero = []
tabulate f (suc n) = f zero ∷ tabulate (λ j. f (suc j)) n

-- The exclusive or of the bytes of the parties below `n`.
unfoldable pub combined : (ℕ → Bytes) → ℕ → Bytes
combined f n = mix_all (replicate 32 0) (tabulate f n)

get_elem?-tabulate :
    (f : ℕ → Bytes) (n k : ℕ) → get_elem? (tabulate f n) k ≡ (if ltb k n then some (f k) else none)
unfolding tabulate
get_elem?-tabulate f zero k = ground arith
get_elem?-tabulate f (suc n) zero = ground arith
get_elem?-tabulate f (suc n) (suc k) = get_elem?-tabulate (λ j. f (suc j)) n k ∙ ground arith

list_ext : (xs ys : List Bytes) → ((k : ℕ) → get_elem? xs k ≡ get_elem? ys k) → xs ≡ ys
list_ext [] [] h = refl
list_ext [] (y ∷ ys) h = ground (arith, h 0)
list_ext (x ∷ xs) [] h = ground (arith, h 0)
list_ext (x ∷ xs) (y ∷ ys) h =
    let head : x ≡ y = ground (arith, h 0) in λ i. head i ∷ list_ext xs ys (λ k. h (suc k)) i

mix_all_swap :
    (output r : Bytes) (xs ys : List Bytes)
    → mix_all output (xs ++ r ∷ ys) ≡ mix_all (xor_into output r) (xs ++ ys)
unfolding mix_all
mix_all_swap output r [] ys = refl
mix_all_swap output r (x ∷ xs) ys =
    mix_all_swap (xor_into output x) r xs ys
    ∙ ap (λ o. mix_all o (xs ++ ys)) (xor_into_swap output x r)

take-drop : (i : ℕ) (xs : List Bytes) → take i xs ++ drop i xs ≡ xs
take-drop zero xs = refl
take-drop (suc i) [] = refl
take-drop (suc i) (x ∷ xs) = ap (◌∷◌ x) (take-drop i xs)

xor_into-zeros : (n : ℕ) (rs : Bytes) → length rs ≡ n → xor_into (replicate n 0) rs ≡ rs
unfolding xor_into
xor_into-zeros zero [] e = refl
xor_into-zeros zero (r ∷ rs) e = absurd (omega (arith, e))
xor_into-zeros (suc n) [] e = absurd (omega (arith, e))
xor_into-zeros (suc n) (r ∷ rs) e = λ i. zero-bit_xor r i ∷ xor_into-zeros n rs (omega (arith, e)) i

module _ (f : ℕ → Bytes) (i n : ℕ) (others : List Bytes) (own : i < n) (len : length others + 1 ≡ n)
    (at : (k : ℕ) → k < length others → get_elem? others k ≡ some (f (party_index i k))) where
  item_of_other :
      (k : ℕ)
      → k ≢ i
      → get_elem? others (if ltb k i then k else k - 1) ≡ (if ltb k n then some (f k) else none)
  item_of_other k other = elim (Bool-cases (ltb k n)) [
    | inl near ↦ rw near (
        unfold sender_index in
        (at (sender_index i k) (ground (arith, len, own))
          ∙ ap (λ j. some (f j)) (party_index-sender_index i k other)))
    | inr far ↦ rw far (get_elem?-ge others _ (ground (arith, len, own)))
  ]

  item_of_all :
      (k : ℕ) → get_elem? (take i others ++ f i ∷ drop i others) k ≡ get_elem? (tabulate f n) k
  item_of_all k = get_elem?-take-drop others i (f i) k (omega arith) ∙ elim (Bool-cases (k == i)) [
    | inl mine ↦
        let same : k ≡ i = ground arith in
        rw mine (rw (sym same) (ground (arith, get_elem?-tabulate f n k)))
    | inr other ↦ rw other (item_of_other k (ground arith) ∙ sym (get_elem?-tabulate f n k))
  ]

  -- One's own bytes mixed with those of the others.
  mix_all-combined : length (f i) ≡ 32 → mix_all (f i) others ≡ combined f n
  unfolding combined
  mix_all-combined full =
      ap (λ o. mix_all o others) (sym (xor_into-zeros 32 (f i) full))
      ∙ ap (mix_all (xor_into (replicate 32 0) (f i))) (sym (take-drop i others))
      ∙ sym (mix_all_swap (replicate 32 0) (f i) (take i others) (drop i others))
      ∙ ap (mix_all (replicate 32 0)) (list_ext _ (tabulate f n) item_of_all)

abbrev opening : Opened → Bytes
opening x = x.1.2.randomness

module _ {A B : Type 0} (g : A → B) where
  length-map : (xs : List A) → length (map g xs) ≡ length xs
  length-map [] = refl
  length-map (x ∷ xs) = ap suc (length-map xs)

  get_elem?-map : (xs : List A) (k : ℕ) → get_elem? (map g xs) k ≡ Option.map g (get_elem? xs k)
  get_elem?-map [] k = refl
  get_elem?-map (x ∷ xs) zero = refl
  get_elem?-map (x ∷ xs) (suc k) = get_elem?-map xs k

mixed-mix_all :
    (digest : Bytes → Bytes) (xs : List Opened) (local : Bytes)
    → ((k : ℕ) (x : Opened) → get_elem? xs k ≡ some x → is_opened_item digest x ≡ true)
    → mixed digest local xs ≡ mix_all local (map opening xs)
unfolding mixed mix_all
mixed-mix_all digest [] local good = refl
mixed-mix_all digest (x ∷ xs) local good =
    rw (good 0 x refl)
      (mixed-mix_all digest xs (xor_into local x.1.2.randomness) (λ k y h. good (suc k) y h))

-- Every other party opened the bytes `opened j`.
abbrev pub HasOpened : RoundInput DecommitMsg → (ℕ → Bytes) → Type 0
HasOpened s2 opened =
    (j : ℕ)
    → j < s2.n
    → j ≢ s2.i
    → (id : MsgId) × (received s2 j ≡ some (id, record { randomness = opened j }))

module _ (digest : Bytes → Bytes) (s1 : RoundInput CommitMsg) (s2 : RoundInput DecommitMsg)
    (r1 : RoundMsgs CommitMsg) (r2 : RoundMsgs DecommitMsg) (v1 : IsValid s1) (v2 : IsValid s2)
    (e1 : output s1 ≡ ok r1) (e2 : output s2 ≡ ok r2) (same_i : s1.i ≡ s2.i)
    (same_n : s1.n ≡ s2.n) where
  opened_at :
      (opened : ℕ → Bytes) (k : ℕ)
      → HasOpened s2 opened
      → k < length (items r1 r2)
      → get_elem? (map opening (items r1 r2)) k ≡ some (opened (party_index s1.i k))
  opened_at opened k revealed h =
      let (x, at) = get_elem?-some (items r1 r2) k h in
      let (who, held, held') = item_received s1 s2 r1 r2 v1 v2 e1 e2 same_i same_n k x at in
      let other : x.0.0 ≢ s2.i = ground (arith, not_own s2 x.0.0 (x.1.1, x.1.2) held') in
      let near : x.0.0 < s2.n =
        unfold party_index in
        (ground (arith, length-items s1 s2 r1 r2 v1 v2 e1 e2 same_i same_n, v1.own_index)) in
      let (id, e) = revealed x.0.0 near other in
      get_elem?-map opening (items r1 r2) k
      ∙ ap (Option.map opening) at
      ∙ ground (arith, sym held' ∙ e)

  pub verify-combined :
      (RecvErr SendErr : Type 0) (opened : ℕ → Bytes)
      → HasOpened s2 opened
      → length (opened s1.i) ≡ 32
      → ((b : Blame) → ¬ Cheated digest s1 s2 b)
      → verify digest {RecvErr = RecvErr} {SendErr = SendErr} r1 r2 (opened s1.i)
        ≡ ok (combined opened s1.n)
  verify-combined RecvErr SendErr opened revealed full honest =
      let xs = items r1 r2 in
      let len = length-items s1 s2 r1 r2 v1 v2 e1 e2 same_i same_n in
      verify-honest digest s1 s2 r1 r2 v1 v2 e1 e2 same_i same_n RecvErr SendErr (opened s1.i)
        honest
      ∙ ap (λ o. ok o)
          (mixed-mix_all digest xs (opened s1.i)
              (honest_item digest s1 s2 r1 r2 v1 v2 e1 e2 same_i same_n honest)
            ∙ mix_all-combined opened s1.i s1.n (map opening xs) v1.own_index
                (omega (arith, length-map opening xs, len))
                (λ k h. opened_at opened k revealed (omega (arith, length-map opening xs, h))) full)

tabulate_ext :
    (f g : ℕ → Bytes) (n : ℕ) → ((j : ℕ) → j < n → f j ≡ g j) → tabulate f n ≡ tabulate g n
unfolding tabulate
tabulate_ext f g zero h = refl
tabulate_ext f g (suc n) h = λ k.
    h 0 (omega arith) k
    ∷ tabulate_ext (λ j. f (suc j)) (λ j. g (suc j)) n (λ j l. h (suc j) (omega (arith, l))) k

pub combined_ext :
    (f g : ℕ → Bytes) (n : ℕ) → ((j : ℕ) → j < n → f j ≡ g j) → combined f n ≡ combined g n
unfolding combined
combined_ext f g n h = ap (mix_all (replicate 32 0)) (tabulate_ext f g n h)
