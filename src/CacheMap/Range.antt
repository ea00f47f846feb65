-- ===== src/CacheMap/Range.antt =====
-- `set_range` and `clear_range` against the set of blocks: they change the blocks of the range, and
-- no other.
use dnbd.Base.{
  ℕ, ◌+◌, ◌-◌, ◌/◌, ◌%◌, ◌<◌, ◌≡◌, Bool, false, ◌&&◌, ◌||◌, not, List, arith, ltb, leb, ◌==◌,
  Bool-cases, inl, inr, length, bit_and,
}
use dnbd.Base.Bits.{bit, bit-bit_and, bit_full, bit_zero, bit_and-lt}
use dnbd.CacheMap.Masks.{
  first_mask, last_mask, bit-first_mask, bit-last_mask, first_mask-lt, last_mask-lt,
}
use dnbd.CacheMap.Defs.{or_byte, and_not_byte, fill, set_range, clear_range}
use dnbd.CacheMap.Cached.{
  cached, cached-or_byte, cached-and_not_byte, cached-fill, length-or_byte, length-and_not_byte,
  length-fill, IsBytes, or_byte-IsBytes, and_not_byte-IsBytes, fill-IsBytes,
}

-- Is `b` one of the blocks between the bytes `start` and `end`?
abbrev pub in_range : ℕ → ℕ → ℕ → Bool
in_range start end b = leb (start / 4096) b && ltb b (end / 4096)

module _ (m : List ℕ) (start end : ℕ) (hs : start % 4096 ≡ 0) (he : end % 4096 ≡ 0)
    (lt : start < end) (fits : (end - 1) / 32768 < length m) (b : ℕ) where
  abbrev first : ℕ
  first = start / 32768

  abbrev last : ℕ
  last = (end - 1) / 32768

  bits_first : bit (first_mask start) (b % 8) ≡ leb (start / 4096 % 8) (b % 8)
  bits_first = bit-first_mask start (b % 8) (omega arith)

  bits_last : bit (last_mask (end - 1)) (b % 8) ≡ leb (b % 8) ((end - 1) / 4096 % 8)
  bits_last = bit-last_mask (end - 1) (b % 8) (omega arith)

  abbrev one_mask : ℕ
  one_mask = bit_and (first_mask start) (last_mask (end - 1))

  bits_one :
      bit one_mask (b % 8) ≡ (leb (start / 4096 % 8) (b % 8) && leb (b % 8) ((end - 1) / 4096 % 8))
  bits_one =
      ground
        (arith, bit-bit_and (b % 8) (first_mask start) (last_mask (end - 1)), bits_first, bits_last)

  abbrev both_set : List ℕ
  both_set = or_byte (or_byte m first (first_mask start)) last (last_mask (end - 1))

  abbrev both_cleared : List ℕ
  both_cleared = and_not_byte (and_not_byte m first (first_mask start)) last (last_mask (end - 1))

  many_set :
      (first == last) ≡ false
      → cached (fill both_set (first + 1) (last - (first + 1)) 0xff).0 b
        ≡ (cached m b || in_range start end b)
  many_set more = ground (
    arith,
    cached-fill both_set (first + 1) (last - (first + 1)) 0xff b,
    length-or_byte m first (first_mask start),
    length-or_byte (or_byte m first (first_mask start)) last (last_mask (end - 1)),
    cached-or_byte (or_byte m first (first_mask start)) last b
        (omega (arith, length-or_byte m first (first_mask start))) (last_mask (end - 1)),
    cached-or_byte m first b (omega arith) (first_mask start),
    bits_first,
    bits_last,
    bit_full (b % 8) (omega arith),
  )

  many_cleared :
      (first == last) ≡ false
      → cached (fill both_cleared (first + 1) (last - (first + 1)) 0).0 b
        ≡ (cached m b && not (in_range start end b))
  many_cleared more = ground (
    arith,
    cached-fill both_cleared (first + 1) (last - (first + 1)) 0 b,
    length-and_not_byte m first (first_mask start),
    length-and_not_byte (and_not_byte m first (first_mask start)) last (last_mask (end - 1)),
    cached-and_not_byte (and_not_byte m first (first_mask start)) last b
        (omega (arith, length-and_not_byte m first (first_mask start))) (last_mask (end - 1))
        (last_mask-lt (end - 1)),
    cached-and_not_byte m first b (omega arith) (first_mask start) (first_mask-lt start),
    bits_first,
    bits_last,
    bit_zero (b % 8),
  )

  pub cached-set_range : cached (set_range m start end).0 b ≡ (cached m b || in_range start end b)
  unfolding set_range
  cached-set_range = elim (Bool-cases (first == last)) [
    | inl one ↦ rw one (ground (arith, cached-or_byte m first b (omega arith) one_mask, bits_one))
    | inr more ↦ rw more (many_set more)
  ]

  pub cached-clear_range :
      cached (clear_range m start end) b ≡ (cached m b && not (in_range start end b))
  unfolding clear_range
  cached-clear_range = elim (Bool-cases (first == last)) [
    | inl one ↦ rw one (
        ground (
          arith,
          cached-and_not_byte m first b (omega arith) one_mask
              (bit_and-lt 8 (first_mask start) _ (first_mask-lt start)),
          bits_one,
        ))
    | inr more ↦ rw more (many_cleared more)
  ]

pub length-set_range : (m : List ℕ) (start end : ℕ) → length (set_range m start end).0 ≡ length m
unfolding set_range
length-set_range m start end = ground (
  arith,
  length-or_byte m (start / 32768) (bit_and (first_mask start) (last_mask (end - 1))),
  length-or_byte m (start / 32768) (first_mask start),
  length-or_byte (or_byte m (start / 32768) (first_mask start)) ((end - 1) / 32768)
      (last_mask (end - 1)),
  length-fill
      (or_byte (or_byte m (start / 32768) (first_mask start)) ((end - 1) / 32768)
        (last_mask (end - 1)))
      (start / 32768 + 1) ((end - 1) / 32768 - (start / 32768 + 1)) 0xff,
)

pub length-clear_range : (m : List ℕ) (start end : ℕ) → length (clear_range m start end) ≡ length m
unfolding clear_range
length-clear_range m start end = ground (
  arith,
  length-and_not_byte m (start / 32768) (bit_and (first_mask start) (last_mask (end - 1))),
  length-and_not_byte m (start / 32768) (first_mask start),
  length-and_not_byte (and_not_byte m (start / 32768) (first_mask start)) ((end - 1) / 32768)
      (last_mask (end - 1)),
  length-fill
      (and_not_byte (and_not_byte m (start / 32768) (first_mask start)) ((end - 1) / 32768)
        (last_mask (end - 1)))
      (start / 32768 + 1) ((end - 1) / 32768 - (start / 32768 + 1)) 0,
)

pub set_range-IsBytes : (m : List ℕ) (start end : ℕ) → IsBytes m → IsBytes (set_range m start end).0
unfolding set_range
set_range-IsBytes m start end h = elim (Bool-cases (start / 32768 == (end - 1) / 32768)) [
  | inl one ↦
      rw one (or_byte-IsBytes m _ _ (bit_and-lt 8 (first_mask start) _ (first_mask-lt start)) h)
  | inr more ↦ rw more (
      fill-IsBytes _ _ _ 0xff (omega arith) (
        or_byte-IsBytes _ _ _ (last_mask-lt (end - 1))
          (or_byte-IsBytes m _ _ (first_mask-lt start) h)))
]

pub clear_range-IsBytes :
    (m : List ℕ) (start end : ℕ) → IsBytes m → IsBytes (clear_range m start end)
unfolding clear_range
clear_range-IsBytes m start end h = elim (Bool-cases (start / 32768 == (end - 1) / 32768)) [
  | inl one ↦ rw one (and_not_byte-IsBytes m _ _ h)
  | inr more ↦ rw more (
      fill-IsBytes _ _ _ 0 (omega arith)
        (and_not_byte-IsBytes _ _ _ (and_not_byte-IsBytes m _ _ h)))
]
