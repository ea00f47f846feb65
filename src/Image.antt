-- ===== src/Image.antt =====
-- The image struct of src/server/globals.h (`_dnbd3_image`, `dnbd3_cache_map_t`) and the sizes of
-- src/server/image.h. A file descriptor and a pointer are an option, `none` for -1 and NULL.
use dnbd.Base.{ℕ, ◌+◌, ◌-◌, ◌*◌, ◌/◌, ◌%◌, ◌^◌, Bool, Option, List}

-- `DNBD3_BLOCK_SIZE`, `HASH_BLOCK_SIZE`, and the modulus of a uint64_t.
abbrev pub block_size : ℕ
block_size = 4096

abbrev pub hash_block_size : ℕ
hash_block_size = 16777216

abbrev pub u64 : ℕ
u64 = 2 ^ 64

-- `x & ~(DNBD3_BLOCK_SIZE - 1)`
abbrev pub align_down : ℕ → ℕ
align_down x = x / block_size * block_size

-- `(x + DNBD3_BLOCK_SIZE - 1) & ~(DNBD3_BLOCK_SIZE - 1)`
abbrev pub align_up : ℕ → ℕ
align_up x = align_down ((x + block_size - 1) % u64)

-- `IMGSIZE_TO_MAPBYTES`: one byte of a cache map stands for eight blocks.
abbrev pub map_bytes : ℕ → ℕ
map_bytes size = (size + 32767) / 32768

-- `IMGSIZE_TO_HASHBLOCKS`
abbrev pub hash_blocks : ℕ → ℕ
hash_blocks size = (size + hash_block_size - 1) / hash_block_size

-- `dnbd3_cache_map_t`, less its reference count.
pub record CacheMap : Type 0 where
  pub dirty : Bool
  pub map : List ℕ

pub record Problem : Type 0 where
  pub read : Bool
  pub write : Bool
  pub changed : Bool
  pub uplink : Bool
  pub queue : Bool

-- A name is its bytes.
pub record Image : Type 0 where
  pub id : ℕ
  pub name : List ℕ
  pub rid : ℕ
  pub users : ℕ
  pub virtual_filesize : ℕ
  pub real_filesize : ℕ
  pub cache_map : Option CacheMap
  pub crc32 : Option (List ℕ)
  pub read_fd : Option ℕ
  pub problem : Problem
