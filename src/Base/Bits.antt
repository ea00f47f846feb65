-- ===== src/Base/Bits.antt =====
-- Binary digits: how `&` and `|` act on each of them, and which are set in a mask.
use Prim.Native.Nat.{
  ℕ, zero, suc, ◌+◌, ◌-◌, ◌*◌, ◌/◌, ◌%◌, ◌^◌, ◌≤◌, ◌<◌, min, max, bit_and, bit_or, digits, bitwise,
  bit_and-bitwise, bit_or-bitwise,
}
use mathlib.Core.Logic.{inl, inr}
use mathlib.Core.Path.{◌∙◌, ◌≡◌, refl, ap}
use mathlib.Core.Bool.{Bool, true, false, ◌&&◌, ◌||◌, not}
use native.Mathlib.Nat.{pow-suc}
use native.Mathlib.Omega.{arith}
use dnbd.Base.Tests.{◌==◌, Bool-cases}

-- Digit `k` of `x`.
unfoldable pub bit : ℕ → ℕ → Bool
bit x zero = x % 2 == 1
bit x (suc k) = bit (x / 2) k

-- The native operations recur on a count of digits; more than enough digits change nothing.
module _ (rest : ℕ → ℕ) (pair : ℕ → ℕ → ℕ) where
  one_more : (n a b : ℕ) → a ≤ n → digits rest pair (suc n) a b ≡ digits rest pair n a b
  one_more zero zero b fits = refl
  one_more zero (suc a) b fits = elim fits [ ]
  one_more (suc n) zero b fits = refl
  one_more (suc n) (suc a) b fits =
      ap (λ t. t * 2 + pair (suc a % 2) (b % 2)) (one_more n (suc a / 2) (b / 2) (omega arith))

  any_more : (d n a b : ℕ) → n ≡ d + a → digits rest pair n a b ≡ bitwise rest pair a b
  any_more zero n a b e = ap (λ t. digits rest pair t a b) (omega arith)
  any_more (suc d) n a b e =
      let e' : n ≡ suc (d + a) = omega arith in
      ap (λ t. digits rest pair t a b) e'
      ∙ (one_more (d + a) a b (omega arith) ∙ any_more d (d + a) a b refl)

  bitwise-digit :
      (a b : ℕ)
      → bitwise rest pair (suc a) b
        ≡ bitwise rest pair (suc a / 2) (b / 2) * 2 + pair (suc a % 2) (b % 2)
  bitwise-digit a b =
      ap (λ t. t * 2 + pair (suc a % 2) (b % 2))
        (any_more (a - suc a / 2) a (suc a / 2) (b / 2) (omega arith))

zero-bit_or : (b : ℕ) → bit_or 0 b ≡ b
zero-bit_or b = bit_or-bitwise 0 b

zero-bit_and : (b : ℕ) → bit_and 0 b ≡ 0
zero-bit_and b = bit_and-bitwise 0 b

-- The lowest digit and the others.
pub bit_or_digit : (a b : ℕ) → bit_or a b ≡ max (a % 2) (b % 2) + bit_or (a / 2) (b / 2) * 2
bit_or_digit zero b = omega (arith, zero-bit_or b, zero-bit_or (b / 2))
bit_or_digit (suc a) b = omega (
  arith,
  bit_or-bitwise (suc a) b,
  bit_or-bitwise (suc a / 2) (b / 2),
  bitwise-digit (λ y. y) max a b,
)

pub bit_and_digit : (a b : ℕ) → bit_and a b ≡ min (a % 2) (b % 2) + bit_and (a / 2) (b / 2) * 2
bit_and_digit zero b = omega (arith, zero-bit_and b, zero-bit_and (b / 2))
bit_and_digit (suc a) b = omega (
  arith,
  bit_and-bitwise (suc a) b,
  bit_and-bitwise (suc a / 2) (b / 2),
  bitwise-digit (λ y. 0) min a b,
)

bit_or-half : (a b : ℕ) → bit_or a b / 2 ≡ bit_or (a / 2) (b / 2)
bit_or-half a b = omega (arith, bit_or_digit a b)

bit_and-half : (a b : ℕ) → bit_and a b / 2 ≡ bit_and (a / 2) (b / 2)
bit_and-half a b = omega (arith, bit_and_digit a b)

pub bit-bit_or : (k a b : ℕ) → bit (bit_or a b) k ≡ (bit a k || bit b k)
unfolding bit
bit-bit_or zero a b = ground (arith, bit_or_digit a b)
bit-bit_or (suc k) a b = rw (bit_or-half a b) (bit-bit_or k (a / 2) (b / 2))

pub bit-bit_and : (k a b : ℕ) → bit (bit_and a b) k ≡ (bit a k && bit b k)
unfolding bit
bit-bit_and zero a b = ground (arith, bit_and_digit a b)
bit-bit_and (suc k) a b = rw (bit_and-half a b) (bit-bit_and k (a / 2) (b / 2))

-- A number below 2 ^ w with no digit set is 0; two with the same digits are equal.
pub eq_of_bits : (w a b : ℕ) → a < 2 ^ w → b < 2 ^ w → ((k : ℕ) → k < w → bit a k ≡ bit b k) → a ≡ b
unfolding bit
eq_of_bits zero a b ha hb h = omega arith
eq_of_bits (suc w) a b ha hb h = ground (
  arith,
  h 0 (omega arith),
  pow-suc 2 w,
  eq_of_bits w (a / 2) (b / 2) (omega (arith, pow-suc 2 w)) (omega (arith, pow-suc 2 w))
      (λ k hk. h (suc k) (omega arith)),
)

-- `|` stays below a power of two that bounds its arguments, and `&` below its first argument.
pub bit_or-lt : (w a b : ℕ) → a < 2 ^ w → b < 2 ^ w → bit_or a b < 2 ^ w
bit_or-lt zero a b ha hb =
    let e : a ≡ 0 = omega arith in omega (arith, zero-bit_or b, ap (λ (t : ℕ). bit_or t b) e)
bit_or-lt (suc w) a b ha hb = omega (
  arith,
  pow-suc 2 w,
  bit_or_digit a b,
  bit_or-lt w (a / 2) (b / 2) (omega (arith, pow-suc 2 w)) (omega (arith, pow-suc 2 w)),
)

pub bit_and-lt : (w a b : ℕ) → a < 2 ^ w → bit_and a b < 2 ^ w
bit_and-lt zero a b ha =
    let e : a ≡ 0 = omega arith in omega (arith, zero-bit_and b, ap (λ (t : ℕ). bit_and t b) e)
bit_and-lt (suc w) a b ha = omega (
  arith,
  pow-suc 2 w,
  bit_and_digit a b,
  bit_and-lt w (a / 2) (b / 2) (omega (arith, pow-suc 2 w)),
)

-- A test at every number below a bound, by evaluation.
unfoldable pub passes_below : ℕ → (ℕ → Bool) → Bool
passes_below zero test = true
passes_below (suc n) test = passes_below n test && test n

pub passes_below-at :
    (n x : ℕ) (test : ℕ → Bool) → x < n → passes_below n test ≡ true → test x ≡ true
unfolding passes_below
passes_below-at zero x test below t = elim below [ ]
passes_below-at (suc n) x test below t = elim (Bool-cases (x == n)) [
  | inl last ↦ ground arith
  | inr earlier ↦ passes_below-at n x test (ground arith) (ground arith)
]

full_table : passes_below 8 (λ k. bit 0xff k) ≡ true
unfolding passes_below bit
full_table = refl

pub bit_full : (k : ℕ) → k < 8 → bit 0xff k ≡ true
bit_full k h = passes_below-at 8 k _ h full_table

pub bit_zero : (k : ℕ) → bit 0 k ≡ false
unfolding bit
bit_zero zero = refl
bit_zero (suc k) = bit_zero k

-- The complement within `w` digits has the other digits.
pub bit_complement : (w x k : ℕ) → x < 2 ^ w → k < w → bit (2 ^ w - 1 - x) k ≡ not (bit x k)
unfolding bit
bit_complement zero x k hx hk = absurd (omega arith)
bit_complement (suc w) x zero hx hk = ground (arith, pow-suc 2 w)
bit_complement (suc w) x (suc k) hx hk =
    let e : (2 ^ suc w - 1 - x) / 2 ≡ 2 ^ w - 1 - x / 2 = omega (arith, pow-suc 2 w) in
    rw e (bit_complement w (x / 2) k (omega (arith, pow-suc 2 w)) (omega arith))
