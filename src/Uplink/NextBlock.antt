-- ===== src/Uplink/NextBlock.antt =====
-- What `findNextIncompleteHashBlock` of src/server/uplink.c finds.
use dnbd.Base.{ℕ, ◌+◌, ◌<◌, ◌≡◌, ◌≢◌, ◌⊎◌, true, false, Option, none, some}
use dnbd.Uplink.Replicate.{hash_start, Search, byte_at, is_full_byte}

-- Some blocks of a byte are present and some are missing, where the last byte counts as full once
-- `replicatedLastBlock` is set.
abbrev pub IsMixed : Search → ℕ → Type 0
IsMixed s i = (byte_at s i ≢ 0) × (is_full_byte s i ≡ false)

-- The byte has nothing, and another one of its hash block has something.
abbrev pub IsPartial : Search → ℕ → Type 0
IsPartial s r =
    (byte_at s r ≡ 0)
    × ((i : ℕ) × (i < s.size)
        × (hash_start i ≡ hash_start r)
        × ((is_full_byte s i ≡ true) ⊎ (byte_at s i ≢ 0)))

-- The byte has nothing and begins a hash block, and the hash block behind it, or the first one of the map,
-- begins with a mixed byte.
abbrev pub IsAhead : Search → ℕ → Type 0
IsAhead s r =
    (byte_at s r ≡ 0)
    × (hash_start r ≡ r)
    × ((i : ℕ) × (i < s.size) × ((i ≡ r + 512) ⊎ (i ≡ 0)) × IsMixed s i)

abbrev pub Incomplete : Search → Option ℕ → Type 0
Incomplete s none = Unit
Incomplete s (some r) = (r < s.size) × (IsMixed s r ⊎ (IsPartial s r ⊎ IsAhead s r))

-- What `retval` means when the loop comes to byte `i`.
abbrev Means : Search → ℕ → Option ℕ → Type 0
Means s i none = (hash_start i ≡ i) ⊎ (is_full_byte s (hash_start i) ≡ true)
Means s i (some r) =
    (r < s.size)
    × (byte_at s r ≡ 0)
    × (hash_start r ≡ r)
    × ((hash_start i ≡ r) ⊎ ((i ≡ r + 512) ⊎ (i ≡ 0)))

abbrev IsNext : ℕ → ℕ → Type 0
IsNext i i' = (i' ≡ i + 1) ⊎ (i' ≡ 0)
