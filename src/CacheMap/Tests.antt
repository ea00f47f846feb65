-- ===== src/CacheMap/Tests.antt =====
-- The theorems on the cache map at an image of ten blocks, and runs of the functions on it.
use dnbd.Base.{
  ℕ, ◌<◌, ◌≡◌, ◌≢◌, ◌↔◌, refl, true, false, ◌&&◌, ◌||◌, not, none, some, [], ◌∷◌, arith, min,
}
use dnbd.Image.{Image, Problem}
use dnbd.Integrity.{CheckQueue}
use dnbd.CacheMap.Masks.{first_mask, last_mask}
use dnbd.CacheMap.Defs.{
  or_byte, and_not_byte, fill, set_range, clear_range, is_range_cached_unsafe,
  is_hash_block_complete, update_cachemap, is_complete,
}
use dnbd.CacheMap.View.{present, IsValid, inside, touches}
use dnbd.CacheMap.Update.{update_cachemap-set}
use dnbd.CacheMap.Clear.{update_cachemap-clear}
use dnbd.CacheMap.Queries.{AllCached, is_range_cached_iff}
use dnbd.CacheMap.Complete.{is_hash_block_complete_iff, AllPresent, is_complete_lem}

abbrev fine : Problem
fine = record { read = false; write = false; changed = false; uplink = false; queue = false }

-- Ten blocks, of which the first is there.
abbrev ten : Image
ten = record {
  id = 1;
  name = 0x61 ∷ [];
  rid = 1;
  users = 0;
  virtual_filesize = 40960;
  real_filesize = 40000;
  cache_map = some (record { dirty = false; map = 1 ∷ 0 ∷ [] });
  crc32 = none;
  read_fd = none;
  problem = fine;
}

-- The blocks 2 to 8 are set, which cross the border of the bytes.
set_two_bytes : set_range (1 ∷ 0 ∷ []) 8192 36864 ≡ (0xfd ∷ 1 ∷ [], true)
unfolding set_range or_byte fill first_mask last_mask
set_two_bytes = refl

set_again : set_range (0xfd ∷ 1 ∷ []) 8192 36864 ≡ (0xfd ∷ 1 ∷ [], false)
unfolding set_range or_byte fill first_mask last_mask
set_again = refl

clear_two_bytes : clear_range (0xff ∷ 3 ∷ []) 28672 36864 ≡ 0x7f ∷ 2 ∷ []
unfolding clear_range and_not_byte fill first_mask last_mask
clear_two_bytes = refl

abbrev idle : CheckQueue
idle = record { running = true; entries = [] }

ten-IsValid : IsValid ten
ten-IsValid = omega arith

update_cachemap-set_example :
    (r : Image × CheckQueue) × (update_cachemap false ten idle 4000 12288 true ≡ some r)
    × IsValid r.0
    × ((b : ℕ) → present r.0 b ≡ (present ten b || inside 4000 12288 b))
update_cachemap-set_example =
    update_cachemap-set ten ten-IsValid idle 4000 12288 (omega arith) (omega arith) false

update_cachemap-clear_example :
    (r : Image × CheckQueue) × (update_cachemap false ten idle 0 100 false ≡ some r)
    × IsValid r.0
    × (r.1 ≡ idle)
    × ((b : ℕ) → b < 10 → present r.0 b ≡ (present ten b && not (touches 0 100 b)))
update_cachemap-clear_example =
    update_cachemap-clear false ten ten-IsValid 0 100 (omega arith) (omega arith) (omega arith) idle

is_range_cached_iff_example :
    (is_range_cached_unsafe (0xf0 ∷ 3 ∷ []) 16384 40960 ≡ true) ↔ AllCached (0xf0 ∷ 3 ∷ []) 4 10
is_range_cached_iff_example =
    is_range_cached_iff (0xf0 ∷ 3 ∷ []) (omega arith) 16384 40960 (omega arith) (omega arith)
      (omega arith)

is_hash_block_complete_iff_example :
    (is_hash_block_complete (some (0xff ∷ 3 ∷ [])) 0 40000 ≡ true)
    ↔ AllCached (0xff ∷ 3 ∷ []) 0 (min 4096 10)
is_hash_block_complete_iff_example =
    is_hash_block_complete_iff (0xff ∷ 3 ∷ []) (omega arith) 0 40000 (omega arith)

is_complete_lem_example :
    let (image', answer, unlinked) = is_complete ten in
    ((answer ≡ true) ↔ AllPresent ten)
    × (answer ≡ true → image'.cache_map ≡ none)
    × ((unlinked ≡ true) ↔ ((answer ≡ true) × (ten.cache_map ≢ none)))
    × ((b : ℕ) → b < 10 → present image' b ≡ present ten b)
    × IsValid image'
is_complete_lem_example = is_complete_lem ten ten-IsValid (omega arith)
