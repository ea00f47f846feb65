-- ===== src/CacheMap/Masks.antt =====
-- The masks that cut a byte of a cache map at the first and the last block of a range.
use dnbd.Base.{ℕ, ◌+◌, ◌-◌, ◌*◌, ◌/◌, ◌%◌, ◌^◌, ◌<◌, ◌≡◌, refl, Bool, true, false, arith, leb}
use dnbd.Base.Bits.{bit, passes_below, passes_below-at}

-- `(uint8_t)(0xff << ((start >> 12) & 7))`
unfoldable pub first_mask : ℕ → ℕ
first_mask start = 0xff * 2 ^ (start / 4096 % 8) % 256

-- `(uint8_t)(~(0xff << ((((end - 1) >> 12) & 7) + 1)))`
unfoldable pub last_mask : ℕ → ℕ
last_mask last = 255 - 0xff * 2 ^ (last / 4096 % 8 + 1) % 256

abbrev same : Bool → Bool → Bool
same true b = b
same false true = false
same false false = true

same→eq : (a b : Bool) → same a b ≡ true → a ≡ b
same→eq a b h = ground arith

first_table :
    passes_below 8 (λ s. passes_below 8 (λ k. same (bit (0xff * 2 ^ s % 256) k) (leb s k))) ≡ true
unfolding passes_below bit
first_table = refl

last_table :
    passes_below 8
      (λ e. passes_below 8 (λ k. same (bit (255 - 0xff * 2 ^ (e + 1) % 256) k) (leb k e)))
    ≡ true
unfolding passes_below bit
last_table = refl

pub bit-first_mask : (start k : ℕ) → k < 8 → bit (first_mask start) k ≡ leb (start / 4096 % 8) k
unfolding first_mask
bit-first_mask start k h =
    same→eq _ _
      (passes_below-at 8 k _ h (passes_below-at 8 (start / 4096 % 8) _ (omega arith) first_table))

pub bit-last_mask : (last k : ℕ) → k < 8 → bit (last_mask last) k ≡ leb k (last / 4096 % 8)
unfolding last_mask
bit-last_mask last k h =
    same→eq _ _
      (passes_below-at 8 k _ h (passes_below-at 8 (last / 4096 % 8) _ (omega arith) last_table))

pub first_mask-lt : (start : ℕ) → first_mask start < 256
unfolding first_mask
first_mask-lt start = omega arith

pub last_mask-lt : (last : ℕ) → last_mask last < 256
unfolding last_mask
last_mask-lt last = omega arith
