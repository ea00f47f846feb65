-- ===== src/CacheMap/Bytes.antt =====
-- What the tests on a byte of a cache map say of its bits, and a run of full bytes of its blocks.
use dnbd.Base.{
  ℕ, zero, suc, ◌+◌, ◌*◌, ◌/◌, ◌%◌, ◌^◌, ◌<◌, ◌≤◌, ◌≡◌, ◌↔◌, refl, sym, ap, ◌∙◌, Bool, true, false,
  not, List, arith, ltb, ◌==◌, ◌!=◌, ==_iff, Bool-cases, inl, inr, get_or, bit_and, All-get_or,
}
use dnbd.Base.Bits.{
  bit, bit-bit_and, bit-bit_or, bit_full, bit_zero, bit_and-lt, bit_or-lt, eq_of_bits, passes_below,
  passes_below-at,
}
use dnbd.CacheMap.Defs.{all_full, ones}
use dnbd.CacheMap.Cached.{cached, IsBytes}

pub get_or-lt : (m : List ℕ) (i : ℕ) → IsBytes m → get_or m i 0 < 256
get_or-lt m i h = All-get_or _ m i 0 (omega arith) h

-- `(x & mask) == mask`: every bit of the mask is set.
pub covers_iff :
    (x mask : ℕ)
    → x < 256
    → mask < 256
    → ((bit_and x mask == mask) ≡ true) ↔ ((k : ℕ) → k < 8 → bit mask k ≡ true → bit x k ≡ true)
covers_iff x mask hx hm = (
  λ e k hk on.
      ground (arith, ap (λ t. bit t k) ((==_iff (bit_and x mask) mask).0 e), bit-bit_and k x mask),
  λ all. (==_iff _ _).1 (
      eq_of_bits 8 (bit_and x mask) mask (bit_and-lt 8 x mask hx) hm
        (λ k hk. ground (arith, all k hk, bit-bit_and k x mask))),
)

pub full_iff : (x : ℕ) → x < 256 → ((x == 0xff) ≡ true) ↔ ((k : ℕ) → k < 8 → bit x k ≡ true)
full_iff x hx = (
  λ e k hk. ap (λ t. bit t k) ((==_iff x 0xff).0 e) ∙ bit_full k hk,
  λ all.
      (==_iff _ _).1
        (eq_of_bits 8 x 0xff hx (omega arith) (λ k hk. all k hk ∙ sym (bit_full k hk))),
)

abbrev same : Bool → Bool → Bool
same true b = b
same false b = not b

same→eq : (a b : Bool) → same a b ≡ true → a ≡ b
same→eq a b h = ground arith

single_table : passes_below 8 (λ i. passes_below 8 (λ k. same (bit (2 ^ i) k) (k == i))) ≡ true
unfolding passes_below bit
single_table = refl

bit-single : (i k : ℕ) → i < 8 → k < 8 → bit (2 ^ i) k ≡ (k == i)
bit-single i k hi hk =
    same→eq _ _ (passes_below-at 8 k _ hk (passes_below-at 8 i _ hi single_table))

-- `(x & (1 << i)) != 0`
pub single_lem : (x i : ℕ) → x < 256 → i < 8 → (bit_and x (2 ^ i) != 0) ≡ bit x i
single_lem x i hx hi = elim (Bool-cases (bit x i)) [
  | inl on ↦ ground (
    arith,
    ap (λ t. bit t i) {x = bit_and x (2 ^ i)} {y = 0},
    bit-bit_and i x (2 ^ i),
    bit-single i i hi hi,
    bit_zero i,
  )
  | inr off ↦
      let e : bit_and x (2 ^ i) ≡ 0 =
        eq_of_bits 8 (bit_and x (2 ^ i)) 0 (bit_and-lt 8 x _ hx) (omega arith)
          (λ k hk. ground (arith, bit-bit_and k x (2 ^ i), bit-single i k hi hk, bit_zero k)) in
      rw (e, off)
]

-- `ones n` has the digits below `n`.
pub bit-ones : (n k : ℕ) → n ≤ 8 → k < 8 → bit (ones n) k ≡ ltb k n
bit-ones zero k hn hk = bit_zero k ∙ ground arith
bit-ones (suc n) k hn hk = ground (
  arith,
  bit-bit_or k (ones n) (2 ^ n),
  bit-ones n k (omega arith) hk,
  bit-single n k (omega arith) hk,
)

two_pow_table : passes_below 8 (λ i. ltb (2 ^ i) 256) ≡ true
unfolding passes_below
two_pow_table = refl

pub ones-lt : (n : ℕ) → n ≤ 8 → ones n < 256
ones-lt zero hn = omega arith
ones-lt (suc n) hn =
    bit_or-lt 8 (ones n) (2 ^ n) (ones-lt n (omega arith))
      (ground (arith, passes_below-at 8 n _ (omega arith) two_pow_table))

abbrev block_at : ℕ → ℕ → ℕ
block_at i k = i * 8 + k

-- A byte is full exactly when its eight blocks are present.
pub full_byte_iff :
    (m : List ℕ) (i : ℕ)
    → IsBytes m
    → ((get_or m i 0 == 0xff) ≡ true) ↔ ((b : ℕ) → b / 8 ≡ i → cached m b ≡ true)
unfolding cached
full_byte_iff m i h = (
  λ e b at. rw at ((full_iff _ (get_or-lt m i h)).0 e (b % 8) (omega arith)),
  λ all. (full_iff _ (get_or-lt m i h)).1 (λ k hk.
      let q : (i * 8 + k) / 8 ≡ i = omega arith in
      let r : (i * 8 + k) % 8 ≡ k = omega arith in
      (let c : bit (get_or m ((i * 8 + k) / 8) 0) ((i * 8 + k) % 8) ≡ true = all (i * 8 + k) q in
        rw (q, r) at c)),
)

pub all_full_iff :
    (m : List ℕ) (pos n : ℕ)
    → IsBytes m
    → (all_full m pos n ≡ true) ↔ ((b : ℕ) → pos ≤ b / 8 → b / 8 < pos + n → cached m b ≡ true)
unfolding all_full
all_full_iff m pos zero h = (λ e b lo hi. absurd (omega arith), λ all. refl)
all_full_iff m pos (suc n) h = (
  λ e b lo hi. elim (Bool-cases (b / 8 == pos)) [
    | inl at ↦ (full_byte_iff m pos h).0 (ground arith) b (ground arith)
    | inr ne ↦ (all_full_iff m (pos + 1) n h).0 (ground arith) b (ground arith) (omega arith)
  ],
  λ all. ground (
    arith,
    (full_byte_iff m pos h).1 (λ b at. all b (omega arith) (omega arith)),
    (all_full_iff m (pos + 1) n h).1 (λ b lo hi. all b (omega arith) (omega arith)),
  ),
)
