-- ===== src/RandomGeneration/Xor.antt =====
-- The exclusive or of examples/random-generation-protocol/src/lib.rs, on numbers and on bytes: the
-- order in which the openings are mixed in does not matter.
use Prim.Native.Nat.{◌/◌, bit_xor, bit_xor-bitwise, digits, differ}
use round_based.Prelude.{
  ℕ, zero, suc, ◌+◌, ◌*◌, ◌%◌, ◌≤◌, ◌<◌, ◌≡◌, refl, sym, ap, ◌∙◌, [], ◌∷◌, arith, length,
}
use round_based.RandomGeneration.{Bytes, xor_into}

-- The law for the lowest digit.
abbrev xor_digits : ℕ → ℕ → ℕ → ℕ
xor_digits n a b = digits (λ b. b) differ n a b

xor_digits_fuel : (n m a b : ℕ) → a ≤ n → a ≤ m → xor_digits n a b ≡ xor_digits m a b
xor_digits_fuel zero zero a b p q = refl
xor_digits_fuel zero (suc m) zero b p q = refl
xor_digits_fuel zero (suc m) (suc a) b p q = absurd (omega arith)
xor_digits_fuel (suc n) zero zero b p q = refl
xor_digits_fuel (suc n) zero (suc a) b p q = absurd (omega arith)
xor_digits_fuel (suc n) (suc m) zero b p q = refl
xor_digits_fuel (suc n) (suc m) (suc a) b p q =
    omega (arith, xor_digits_fuel n m (suc a / 2) (b / 2) (omega arith) (omega arith))

differ_bit : (x y : ℕ) → x < 2 → y < 2 → differ x y ≡ (x + y) % 2
differ_bit zero y p q = omega arith
differ_bit (suc zero) zero p q = refl
differ_bit (suc zero) (suc zero) p q = refl
differ_bit (suc zero) (suc (suc y)) p q = absurd (omega arith)
differ_bit (suc (suc x)) y p q = absurd (omega arith)

pub zero-bit_xor : (b : ℕ) → bit_xor 0 b ≡ b
zero-bit_xor b = bit_xor-bitwise 0 b

bit_xor_step : (a b : ℕ) → bit_xor a b ≡ bit_xor (a / 2) (b / 2) * 2 + (a % 2 + b % 2) % 2
bit_xor_step zero b = omega (arith, zero-bit_xor b, zero-bit_xor (b / 2))
bit_xor_step (suc a) b = omega (
  arith,
  bit_xor-bitwise (suc a) b,
  bit_xor-bitwise (suc a / 2) (b / 2),
  xor_digits_fuel a (suc a / 2) (suc a / 2) (b / 2) (omega arith) (omega arith),
  differ_bit (suc a % 2) (b % 2) (omega arith) (omega arith),
)

bit_xor_comm_fuel : (n a b : ℕ) → a ≤ n → b ≤ n → bit_xor a b ≡ bit_xor b a
bit_xor_comm_fuel zero zero zero p q = refl
bit_xor_comm_fuel zero zero (suc b) p q = absurd (omega arith)
bit_xor_comm_fuel zero (suc a) b p q = absurd (omega arith)
bit_xor_comm_fuel (suc n) a b p q = omega (
  arith,
  bit_xor_step a b,
  bit_xor_step b a,
  bit_xor_comm_fuel n (a / 2) (b / 2) (omega arith) (omega arith),
)

pub bit_xor_comm : (a b : ℕ) → bit_xor a b ≡ bit_xor b a
bit_xor_comm a b = bit_xor_comm_fuel (a + b) a b (omega arith) (omega arith)

half-bit_xor : (a b : ℕ) → bit_xor a b / 2 ≡ bit_xor (a / 2) (b / 2)
half-bit_xor a b = omega (arith, bit_xor_step a b)

bit_xor_assoc_fuel :
    (n a b c : ℕ) → a ≤ n → b ≤ n → c ≤ n → bit_xor (bit_xor a b) c ≡ bit_xor a (bit_xor b c)
bit_xor_assoc_fuel zero zero b c p q r =
    ap (λ x. bit_xor x c) (zero-bit_xor b) ∙ sym (zero-bit_xor (bit_xor b c))
bit_xor_assoc_fuel zero (suc a) b c p q r = absurd (omega arith)
bit_xor_assoc_fuel (suc n) a b c p q r =
    let ih =
      bit_xor_assoc_fuel n (a / 2) (b / 2) (c / 2) (omega arith) (omega arith) (omega arith) in
    let left =
      bit_xor_step (bit_xor a b) c
      ∙ ap (λ x. bit_xor x (c / 2) * 2 + (bit_xor a b % 2 + c % 2) % 2) (half-bit_xor a b) in
    let right =
      bit_xor_step a (bit_xor b c)
      ∙ ap (λ x. bit_xor (a / 2) x * 2 + (a % 2 + bit_xor b c % 2) % 2) (half-bit_xor b c) in
    omega (arith, ih, left, right, bit_xor_step a b, bit_xor_step b c)

pub bit_xor_assoc : (a b c : ℕ) → bit_xor (bit_xor a b) c ≡ bit_xor a (bit_xor b c)
bit_xor_assoc a b c = bit_xor_assoc_fuel (a + b + c) a b c (omega arith) (omega arith) (omega arith)

pub length-xor_into : (xs rs : Bytes) → length (xor_into xs rs) ≡ length xs
unfolding xor_into
length-xor_into [] rs = refl
length-xor_into (x ∷ xs) [] = refl
length-xor_into (x ∷ xs) (r ∷ rs) = ap suc (length-xor_into xs rs)

-- Mixing in two openings, in either order.
pub xor_into_swap : (xs rs ts : Bytes) → xor_into (xor_into xs rs) ts ≡ xor_into (xor_into xs ts) rs
unfolding xor_into
xor_into_swap [] rs ts = refl
xor_into_swap (x ∷ xs) [] [] = refl
xor_into_swap (x ∷ xs) [] (t ∷ ts) = refl
xor_into_swap (x ∷ xs) (r ∷ rs) [] = refl
xor_into_swap (x ∷ xs) (r ∷ rs) (t ∷ ts) =
    let head : bit_xor (bit_xor x r) t ≡ bit_xor (bit_xor x t) r =
      bit_xor_assoc x r t ∙ ap (bit_xor x) (bit_xor_comm r t) ∙ sym (bit_xor_assoc x t r) in
    λ i. head i ∷ xor_into_swap xs rs ts i

-- At equal lengths the local randomness is one opening among the others.
pub xor_into_comm : (xs rs : Bytes) → length xs ≡ length rs → xor_into xs rs ≡ xor_into rs xs
unfolding xor_into
xor_into_comm [] [] e = refl
xor_into_comm [] (r ∷ rs) e = absurd (omega (arith, e))
xor_into_comm (x ∷ xs) [] e = absurd (omega (arith, e))
xor_into_comm (x ∷ xs) (r ∷ rs) e =
    λ i. bit_xor_comm x r i ∷ xor_into_comm xs rs (omega (arith, e)) i
