-- ===== src/CacheMap/Queries.antt =====
-- The questions that image.c and image.h ask a cache map, against the set of present blocks.
use dnbd.Base.{
  ℕ, ◌+◌, ◌-◌, ◌*◌, ◌/◌, ◌%◌, ◌<◌, ◌≤◌, ◌≡◌, ◌↔◌, refl, sym, ◌∙◌, Bool, true, ◌&&◌, &&-true, List,
  arith, ◌==◌, Bool-cases, inl, inr, if◌then◌else◌, get_or, bit_and,
}
use dnbd.Base.Bits.{bit, bit-bit_and, bit_and-lt}
use dnbd.CacheMap.Masks.{
  first_mask, last_mask, bit-first_mask, bit-last_mask, first_mask-lt, last_mask-lt,
}
use dnbd.CacheMap.Defs.{all_full, is_range_cached_unsafe}
use dnbd.CacheMap.Cached.{cached, IsBytes}
use dnbd.CacheMap.Bytes.{covers_iff, all_full_iff, get_or-lt}

-- The blocks from `lo` up to `hi` are present.
abbrev pub AllCached : List ℕ → ℕ → ℕ → Type 0
AllCached m lo hi = (b : ℕ) → lo ≤ b → b < hi → cached m b ≡ true

-- A test of one byte against a mask, as a statement about the blocks of that byte.
pub covers_blocks :
    (m : List ℕ) (i mask : ℕ)
    → IsBytes m
    → mask < 256
    → ((bit_and (get_or m i 0) mask == mask) ≡ true)
      ↔ ((b : ℕ) → b / 8 ≡ i → bit mask (b % 8) ≡ true → cached m b ≡ true)
unfolding cached
covers_blocks m i mask h hm = (
  λ e b q on. rw q ((covers_iff _ mask (get_or-lt m i h) hm).0 e (b % 8) (omega arith) on),
  λ all. (covers_iff _ mask (get_or-lt m i h) hm).1 (λ k hk on.
      let q : (i * 8 + k) / 8 ≡ i = omega arith in
      let r : (i * 8 + k) % 8 ≡ k = omega arith in
      (let c : bit (get_or m ((i * 8 + k) / 8) 0) ((i * 8 + k) % 8) ≡ true =
          all (i * 8 + k) q (rw r on) in
        rw (q, r) at c)),
)

module _ (m : List ℕ) (h : IsBytes m) (start end : ℕ) (hs : start % 4096 ≡ 0) (he : end % 4096 ≡ 0)
    (lt : start < end) where
  abbrev first : ℕ
  first = start / 32768

  abbrev last : ℕ
  last = (end - 1) / 32768

  first_test : Bool
  first_test = bit_and (get_or m first 0) (first_mask start) == first_mask start

  last_test : Bool
  last_test = bit_and (get_or m last 0) (last_mask (end - 1)) == last_mask (end - 1)

  one_test : Bool
  one_test =
      bit_and (get_or m first 0) (bit_and (first_mask start) (last_mask (end - 1)))
      == bit_and (first_mask start) (last_mask (end - 1))

  first_test_iff :
      (first_test ≡ true) ↔ ((b : ℕ) → b / 8 ≡ first → start / 4096 ≤ b → cached m b ≡ true)
  unfolding first_test
  first_test_iff = (
    λ e b q lo.
        (covers_blocks m first (first_mask start) h (first_mask-lt start)).0 e b q
          (ground (arith, bit-first_mask start (b % 8))),
    λ all.
        (covers_blocks m first (first_mask start) h (first_mask-lt start)).1
          (λ b q on. all b q (ground (arith, bit-first_mask start (b % 8)))),
  )

  last_test_iff : (last_test ≡ true) ↔ ((b : ℕ) → b / 8 ≡ last → b < end / 4096 → cached m b ≡ true)
  unfolding last_test
  last_test_iff = (
    λ e b q hi.
        (covers_blocks m last (last_mask (end - 1)) h (last_mask-lt (end - 1))).0 e b q
          (ground (arith, bit-last_mask (end - 1) (b % 8))),
    λ all.
        (covers_blocks m last (last_mask (end - 1)) h (last_mask-lt (end - 1))).1
          (λ b q on. all b q (ground (arith, bit-last_mask (end - 1) (b % 8)))),
  )

  one_test_iff : (one_test ≡ true) ↔ (
      (b : ℕ)
      → b / 8 ≡ first
      → bit (first_mask start) (b % 8) ≡ true
      → bit (last_mask (end - 1)) (b % 8) ≡ true
      → cached m b ≡ true)
  unfolding one_test
  one_test_iff = (
    λ e b q on on'.
        (covers_blocks m first (bit_and (first_mask start) (last_mask (end - 1))) h
            (bit_and-lt 8 (first_mask start) _ (first_mask-lt start))).0
          e b q (ground (arith, bit-bit_and (b % 8) (first_mask start) (last_mask (end - 1)))),
    λ all.
        (covers_blocks m first (bit_and (first_mask start) (last_mask (end - 1))) h
            (bit_and-lt 8 (first_mask start) _ (first_mask-lt start))).1
          (λ b q on.
            let parts =
              &&-true _ _
                (sym (bit-bit_and (b % 8) (first_mask start) (last_mask (end - 1))) ∙ on) in
            all b q parts.0 parts.1),
  )

  range_test : is_range_cached_unsafe m start end ≡ (
      if first == last
      then one_test
      else (first_test && last_test) && all_full m (first + 1) (last - (first + 1)))
  unfolding is_range_cached_unsafe first_test last_test one_test
  range_test = refl

  middle_iff :
      (all_full m (first + 1) (last - (first + 1)) ≡ true)
      ↔ ((b : ℕ) → first + 1 ≤ b / 8 → b / 8 < first + 1 + (last - (first + 1)) → cached m b ≡ true)
  middle_iff = all_full_iff m (first + 1) (last - (first + 1)) h

  -- `image_isRangeCachedUnsafe`, for a range at block borders that is not empty: the answer is true
  -- exactly when every block of the range is present.
  pub is_range_cached_iff :
      (is_range_cached_unsafe m start end ≡ true) ↔ AllCached m (start / 4096) (end / 4096)
  is_range_cached_iff = rw range_test (elim (Bool-cases (first == last)) [
    | inl one ↦ rw one (
      λ e b lo hi.
          one_test_iff.0 e b (ground arith) (ground (arith, bit-first_mask start (b % 8)))
            (ground (arith, bit-last_mask (end - 1) (b % 8))),
      λ all. one_test_iff.1 (λ b q on on'.
          all b (ground (arith, bit-first_mask start (b % 8)))
            (ground (arith, bit-last_mask (end - 1) (b % 8)))),
    )
    | inr more ↦ rw more (
      λ e b lo hi. elim (Bool-cases (b / 8 == first)) [
        | inl at ↦ first_test_iff.0 (ground (arith, e)) b (ground arith) lo
        | inr ne ↦ elim (Bool-cases (b / 8 == last)) [
          | inl at ↦ last_test_iff.0 (ground (arith, e)) b (ground arith) hi
          | inr ne' ↦ middle_iff.0 (ground (arith, e)) b (ground arith) (ground arith)
        ]
      ],
      λ all. ground (
        arith,
        first_test_iff.1 (λ b q lo. all b lo (ground arith)),
        last_test_iff.1 (λ b q hi. all b (ground arith) hi),
        middle_iff.1 (λ b lo hi. all b (omega arith) (omega arith)),
      ),
    )
  ])
