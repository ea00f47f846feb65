-- ===== src/CacheMap/Cached.antt =====
-- What a cache map says of a block, and how the byte operations change it.
use dnbd.Base.{
  ℕ, zero, suc, ◌+◌, ◌-◌, ◌/◌, ◌%◌, ◌<◌, ◌≤◌, ◌≡◌, refl, Bool, ◌&&◌, ◌||◌, not, List, arith, ltb,
  leb, ◌==◌, ==_iff, if◌then◌else◌, Bool-cases, inl, inr, length, length-set, get_or,
  get_or-set_self, get_or-set_ne, set, bit_and, bit_or, All, All-set, All-get_or,
}
use dnbd.Base.Bits.{bit, bit-bit_or, bit-bit_and, bit_or-lt, bit_and-lt, bit_complement}
use dnbd.CacheMap.Defs.{or_byte, and_not_byte, fill}

-- Is block `b` present?
unfoldable pub cached : List ℕ → ℕ → Bool
cached m b = bit (get_or m (b / 8) 0) (b % 8)

-- Every entry is a byte.
abbrev pub IsBytes : List ℕ → Type 0
IsBytes m = All (λ x. x < 256) m

module _ (m : List ℕ) (i b : ℕ) (inside : i < length m) where
  cached-set : (v : ℕ) → cached (set m i v) b ≡ (if b / 8 == i then bit v (b % 8) else cached m b)
  unfolding cached
  cached-set v = elim (Bool-cases (b / 8 == i)) [
    | inl e ↦ rw (e, (==_iff (b / 8) i).0 e, get_or-set_self m i v 0 inside)
    | inr ne ↦ rw (ne, get_or-set_ne m i (b / 8) v 0 (ground arith))
  ]

  pub cached-or_byte :
      (mask : ℕ) → cached (or_byte m i mask) b ≡ (cached m b || ((b / 8 == i) && bit mask (b % 8)))
  unfolding or_byte cached
  cached-or_byte mask =
      ground
        (arith, cached-set (bit_or (get_or m i 0) mask), bit-bit_or (b % 8) (get_or m i 0) mask)

  pub cached-and_not_byte :
      (mask : ℕ)
      → mask < 256
      → cached (and_not_byte m i mask) b ≡ (cached m b && not ((b / 8 == i) && bit mask (b % 8)))
  unfolding and_not_byte cached
  cached-and_not_byte mask small = ground (
    arith,
    cached-set (bit_and (get_or m i 0) (255 - mask)),
    bit-bit_and (b % 8) (get_or m i 0) (255 - mask),
    bit_complement 8 mask (b % 8),
  )

pub length-or_byte : (m : List ℕ) (i mask : ℕ) → length (or_byte m i mask) ≡ length m
unfolding or_byte
length-or_byte m i mask = length-set m i _

pub length-and_not_byte : (m : List ℕ) (i mask : ℕ) → length (and_not_byte m i mask) ≡ length m
unfolding and_not_byte
length-and_not_byte m i mask = length-set m i _

pub length-fill : (m : List ℕ) (pos n v : ℕ) → length (fill m pos n v).0 ≡ length m
unfolding fill
length-fill m pos zero v = refl
length-fill m pos (suc n) v =
    omega (arith, length-fill (set m pos v) (pos + 1) n v, length-set m pos v)

pub cached-fill :
    (m : List ℕ) (pos n v b : ℕ)
    → pos + n ≤ length m
    → cached (fill m pos n v).0 b
      ≡ (if leb pos (b / 8) && ltb (b / 8) (pos + n) then bit v (b % 8) else cached m b)
unfolding fill
cached-fill m pos zero v b h = ground arith
cached-fill m pos (suc n) v b h = ground (
  arith,
  cached-fill (set m pos v) (pos + 1) n v b,
  length-set m pos v,
  cached-set m pos b (omega arith) v,
)

pub or_byte-IsBytes :
    (m : List ℕ) (i mask : ℕ) → mask < 256 → IsBytes m → IsBytes (or_byte m i mask)
unfolding or_byte
or_byte-IsBytes m i mask small h =
    All-set _ m i _ (bit_or-lt 8 _ mask (All-get_or _ m i 0 (omega arith) h) small) h

pub and_not_byte-IsBytes : (m : List ℕ) (i mask : ℕ) → IsBytes m → IsBytes (and_not_byte m i mask)
unfolding and_not_byte
and_not_byte-IsBytes m i mask h =
    All-set _ m i _ (bit_and-lt 8 _ (255 - mask) (All-get_or _ m i 0 (omega arith) h)) h

pub fill-IsBytes : (m : List ℕ) (pos n v : ℕ) → v < 256 → IsBytes m → IsBytes (fill m pos n v).0
unfolding fill
fill-IsBytes m pos zero v small h = h
fill-IsBytes m pos (suc n) v small h =
    fill-IsBytes (set m pos v) (pos + 1) n v small (All-set _ m pos v small h)
