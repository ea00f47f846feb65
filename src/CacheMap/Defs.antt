-- ===== src/CacheMap/Defs.antt =====
-- `image_updateCachemap`, `image_isComplete`, `image_isHashBlockComplete`, `allocCacheMap` of
-- src/server/image.c, and `image_isRangeCachedUnsafe` of src/server/image.h.
use dnbd.Base.{
  ℕ, zero, suc, ◌+◌, ◌-◌, ◌*◌, ◌/◌, ◌%◌, ◌^◌, Bool, true, false, ◌&&◌, ◌||◌, Option, none, some,
  List, ltb, leb, ◌==◌, ◌!=◌, if◌then◌else◌, get_or, set, replicate, bit_and, bit_or,
}
use dnbd.Image.{Image, align_down, align_up, map_bytes, hash_block_size, block_size, u64}
use dnbd.Integrity
use dnbd.Integrity.{CheckQueue}
use dnbd.CacheMap.Masks.{first_mask, last_mask}

-- `atomic_fetch_or(&map[i], mask)` and `atomic_fetch_and(&map[i], ~mask)`. A write past the end of
-- the list changes nothing; the code has no business there.
unfoldable pub or_byte : List ℕ → ℕ → ℕ → List ℕ
or_byte m i mask = set m i (bit_or (get_or m i 0) mask)

unfoldable pub and_not_byte : List ℕ → ℕ → ℕ → List ℕ
and_not_byte m i mask = set m i (bit_and (get_or m i 0) (255 - mask))

-- The loop "Everything in between": `n` bytes from `pos` on become `v`; did one of them differ?
unfoldable pub fill : List ℕ → ℕ → ℕ → ℕ → List ℕ × Bool
fill m pos zero v = (m, false)
fill m pos (suc n) v =
    let (m', differed) = fill (set m pos v) (pos + 1) n v in (m', (get_or m pos 0 != v) || differed)

-- Set or clear the bits of the blocks from `start` to `end`, both at block borders, and `start < end`.
-- The flag is `setNewBlocks`.
unfoldable pub set_range : List ℕ → ℕ → ℕ → List ℕ × Bool
set_range m start end =
    let first = start / 32768 in
    let last = (end - 1) / 32768 in
    let fb = first_mask start in
    let lb = last_mask (end - 1) in
    if first == last
    then (let mask = bit_and fb lb in
        (or_byte m first mask, get_or m first 0 != bit_or (get_or m first 0) mask))
    else let m₁ = or_byte m first fb in
      let m₂ = or_byte m₁ last lb in
      let fo = get_or m first 0 in
      let lo = get_or m₁ last 0 in
      let (m₃, differed) = fill m₂ (first + 1) (last - (first + 1)) 0xff in
      (m₃, ((fo != bit_or fo fb) || (lo != bit_or lo lb)) || differed)

unfoldable pub clear_range : List ℕ → ℕ → ℕ → List ℕ
clear_range m start end =
    let first = start / 32768 in
    let last = (end - 1) / 32768 in
    let fb = first_mask start in
    let lb = last_mask (end - 1) in
    if first == last
    then and_not_byte m first (bit_and fb lb)
    else (fill (and_not_byte (and_not_byte m first fb) last lb) (first + 1) (last - (first + 1))
        0).0

-- A run of whole bytes, `n` of them from `pos` on.
unfoldable pub all_full : List ℕ → ℕ → ℕ → Bool
all_full m pos zero = true
all_full m pos (suc n) = (get_or m pos 0 == 0xff) && all_full m (pos + 1) n

unfoldable pub is_range_cached_unsafe : List ℕ → ℕ → ℕ → Bool
unfolding all_full
is_range_cached_unsafe m start end =
    let first = start / 32768 in
    let last = (end - 1) / 32768 in
    let fb = first_mask start in
    let lb = last_mask (end - 1) in
    if first == last
    then bit_and (get_or m first 0) (bit_and fb lb) == bit_and fb lb
    else ((bit_and (get_or m first 0) fb == fb) && (bit_and (get_or m last 0) lb == lb))
      && all_full m (first + 1) (last - (first + 1))

-- The loop over the blocks of the last, short hash block: `n` rounds from `pos` on.
unfoldable pub blocks_set : List ℕ → ℕ → ℕ → Bool
blocks_set m pos zero = true
blocks_set m pos (suc n) =
    (bit_and (get_or m (pos / 32768) 0) (2 ^ (pos / 4096 % 8)) != 0)
    && blocks_set m (pos + block_size) n

-- The rounds of `for (p = pos; p < size; p += DNBD3_BLOCK_SIZE)`.
abbrev pub rounds : ℕ → ℕ → ℕ
rounds pos size = (size - pos + block_size - 1) / block_size

-- The cast of a size to `int`; a negative result is `none`.
unfoldable pub to_int : ℕ → Option ℕ
to_int n = if ltb (n % 2 ^ 32) (2 ^ 31) then some (n % 2 ^ 32) else none

-- `block * HASH_BLOCK_SIZE`, as uint64_t.
abbrev pub block_start : ℕ → ℕ
block_start block = block * hash_block_size % u64

-- The index into the map is cast to `int`. Reading outside the map gives 0 here, at a negative index too;
-- the code has no business there.
unfoldable pub is_hash_block_complete : Option (List ℕ) → ℕ → ℕ → Bool
unfolding to_int
is_hash_block_complete none block real_filesize = true
is_hash_block_complete (some m) block real_filesize =
    if leb (block_start (block + 1)) real_filesize
    then elim (to_int (block_start block / (block_size * 8))) [
      | none ↦ false
      | some start ↦ all_full m start (hash_block_size / (block_size * 8))
    ]
    else blocks_set m (block_start block) (rounds (block_start block) real_filesize)

-- `byteSize`, which is cast to `int`. A negative size, with which `memset` has no defined outcome, counts
-- as 0.
unfoldable pub byte_size : Image → ℕ
unfolding to_int
byte_size image = elim (to_int (map_bytes image.virtual_filesize)) [ none ↦ 0 | some n ↦ n ]

-- `malloc` leaves `dirty` as it was in memory: `junk`.
unfoldable pub alloc_cache_map : Bool → Image → Bool → Image
unfolding byte_size
alloc_cache_map junk image complete = elim image.cache_map [
  | some c ↦ image
  | none ↦ record image {
    cache_map =
        some (record {
          dirty = junk;
          map = replicate (byte_size image) (if complete then 0xff else 0);
        });
  }
]

-- The loop over the hash blocks that the range touches: `n` rounds from hash block `block` on.
unfoldable pub queue_checks : ℕ → CheckQueue → Image → List ℕ → ℕ → CheckQueue
unfolding is_hash_block_complete Integrity.check
queue_checks zero q image m block = q
queue_checks (suc n) q image m block =
    queue_checks n
      (if is_hash_block_complete (some m) block image.real_filesize
        then (Integrity.check q image.id (Integrity.block block)).0
        else q)
      image m (block + 1)

-- `image_updateCachemap` behind its assertions, on the image and the queue of integrity.c.
-- It comes twice, for the two values of `set`.
unfoldable pub update_set : Image → CheckQueue → ℕ → ℕ → Image × CheckQueue
unfolding set_range queue_checks
update_set image q start' end' =
    let end = align_down end' in
    let start = align_up start' in
    if leb end start then (image, q) else elim image.cache_map [
      | none ↦ (image, q)
      | some c ↦
          let (m, new_blocks) = set_range c.map start end in
          let image' = record image { cache_map = some (record c { map = m }) } in
          elim image.crc32 [
            | none ↦ (image', q)
            | some crcs ↦
                if new_blocks
                then (let first = start / hash_block_size in
                    let past = (end + hash_block_size - 1) % u64 / hash_block_size in
                    (image', queue_checks (past - first) q image' m first))
                else (image', q)
          ]
    ]

unfoldable pub update_clear : Bool → Image → ℕ → ℕ → Image
unfolding alloc_cache_map clear_range
update_clear junk image' start' end' =
    let start = align_down start' in
    let end = align_up end' in
    if leb end start
    then image'
    else let image = alloc_cache_map junk image' true in
      elim image.cache_map [
        | none ↦ image
        | some c ↦ record image {
          cache_map = some (record c { dirty = true; map = clear_range c.map start end });
        }
      ]

-- `none` is a failed assertion.
unfoldable pub update_cachemap :
    Bool → Image → CheckQueue → ℕ → ℕ → Bool → Option (Image × CheckQueue)
unfolding update_set update_clear
update_cachemap junk image q start end set =
    if leb end image.virtual_filesize && leb start end
    then some (if set then update_set image q start end else (update_clear junk image start end, q))
    else none

-- `last_byte` of `image_isComplete`: the bits of the blocks that the last byte stands for.
abbrev pub ones : ℕ → ℕ
ones zero = 0
ones (suc j) = bit_or (ones j) (2 ^ j)

unfoldable pub map_complete : List ℕ → ℕ → Bool
map_complete m virtual_filesize =
    let len = map_bytes virtual_filesize in
    let rest = virtual_filesize / 4096 % 8 in
    let last_byte = if rest == 0 then 0xff else ones rest in
    all_full m 0 (len - 1) && (bit_and (get_or m (len - 1) 0) last_byte == last_byte)

-- `image_isComplete`: the image, the answer, and whether the map file is removed. No other thread
-- replaces the map between the test and the lock.
unfoldable pub is_complete : Image → Image × Bool × Bool
unfolding map_complete
is_complete image =
    if image.virtual_filesize == 0 then (image, false, false) else elim image.cache_map [
      | none ↦ (image, true, false)
      | some c ↦
          if map_complete c.map image.virtual_filesize
          then (record image { cache_map = none }, true, true)
          else (image, false, false)
    ]
