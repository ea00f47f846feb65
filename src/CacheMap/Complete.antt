-- ===== src/CacheMap/Complete.antt =====
-- `image_isHashBlockComplete` and `image_isComplete` of image.c, against the set of present blocks.
use dnbd.Base.{
  ◌≢◌, ℕ, zero, suc, ◌+◌, ◌-◌, ◌*◌, ◌/◌, ◌%◌, ◌^◌, ◌<◌, ◌≤◌, ◌≡◌, ◌↔◌, refl, sym, ◌∙◌, true, false,
  ◌&&◌, &&-true, ◌||◌, none, some, Option-cases, List, arith, ltb, leb, ◌==◌, ◌!=◌, Bool-cases, inl,
  inr, if◌then◌else◌, get_or, bit_and, min,
}
use dnbd.Base.Bits.{bit, bit_full}
use dnbd.Image.{Image, CacheMap, map_bytes, hash_block_size}
use dnbd.CacheMap.Defs.{
  all_full, blocks_set, rounds, block_start, to_int, is_hash_block_complete, ones, map_complete,
  is_complete,
}
use dnbd.CacheMap.Cached.{cached, IsBytes}
use dnbd.CacheMap.Bytes.{all_full_iff, single_lem, bit-ones, ones-lt, get_or-lt}
use dnbd.CacheMap.View.{present, IsValid, IsValid-change, IsSized-cache_map}
use dnbd.CacheMap.Queries.{AllCached, covers_blocks}

module _ (m : List ℕ) (h : IsBytes m) where
  block_test :
      (pos : ℕ)
      → (bit_and (get_or m (pos / 32768) 0) (2 ^ (pos / 4096 % 8)) != 0) ≡ cached m (pos / 4096)
  unfolding cached
  block_test pos =
      let e : pos / 4096 / 8 ≡ pos / 32768 = omega arith in
      rw e (single_lem (get_or m (pos / 32768) 0) (pos / 4096 % 8) (get_or-lt m _ h) (omega arith))

  blocks_set_iff :
      (pos n : ℕ) → (blocks_set m pos n ≡ true) ↔ AllCached m (pos / 4096) (pos / 4096 + n)
  unfolding blocks_set
  blocks_set_iff pos zero = (λ e b lo hi. absurd (omega arith), λ all. refl)
  blocks_set_iff pos (suc n) = (
    λ e b lo hi. elim (Bool-cases (b == pos / 4096)) [
      | inl at ↦ ground (
        arith,
        block_test pos,
        (&&-true (bit_and (get_or m (pos / 32768) 0) (2 ^ (pos / 4096 % 8)) != 0)
            (blocks_set m (pos + 4096) n) e).0,
      )
      | inr ne ↦ (blocks_set_iff (pos + 4096) n).0 (&&-true _ _ e).1 b (ground arith) (omega arith)
    ],
    λ all. ground (
      arith,
      block_test pos,
      all (pos / 4096) (omega arith) (omega arith),
      (blocks_set_iff (pos + 4096) n).1 (λ b lo hi. all b (omega arith) (omega arith)),
    ),
  )

  start_index :
      (block : ℕ) → block < 2 ^ 22 → to_int (block_start block / 32768) ≡ some (block * 512)
  unfolding to_int
  start_index block lt = ground (arith, lt)

  -- The two cases of the test, with the numbers that do not wrap around.
  test_whole :
      (block size : ℕ)
      → block < 2 ^ 22
      → (block + 1) * hash_block_size ≤ size
      → is_hash_block_complete (some m) block size ≡ all_full m (block * 512) 512
  unfolding is_hash_block_complete
  test_whole block size lt whole = ground (arith, start_index block lt)

  test_short :
      (block size : ℕ)
      → block < 2 ^ 22
      → size < (block + 1) * hash_block_size
      → is_hash_block_complete (some m) block size
        ≡ blocks_set m (block * hash_block_size) (rounds (block * hash_block_size) size)
  unfolding is_hash_block_complete
  test_short block size lt short =
      let same : block_start block ≡ block * hash_block_size = omega arith in
      let past : block_start (block + 1) ≡ (block + 1) * hash_block_size = omega arith in
      rw (same, past) (ground arith)

  -- `image_isHashBlockComplete`, for an image with a cache map and a hash block below the number 2 ^ 22
  -- (the first 64 TiB): the answer is true exactly when every block of 4 KiB is present that starts in
  -- the hash block and before the end of the file.
  pub is_hash_block_complete_iff :
      (block real_filesize : ℕ)
      → block < 2 ^ 22
      → (is_hash_block_complete (some m) block real_filesize ≡ true)
        ↔ AllCached m (block * 4096) (min (block * 4096 + 4096) ((real_filesize + 4095) / 4096))
  is_hash_block_complete_iff block size lt =
      elim (Bool-cases (leb ((block + 1) * hash_block_size) size)) [
        | inl whole ↦ rw (test_whole block size lt (ground arith)) (
          λ e b lo hi. (all_full_iff m (block * 512) 512 h).0 e b (omega arith) (omega arith),
          λ all.
              (all_full_iff m (block * 512) 512 h).1
                (λ b lo hi. all b (omega arith) (ground arith)),
        )
        | inr short ↦ rw (test_short block size lt (ground arith)) (
          λ e b lo hi.
              (blocks_set_iff (block * hash_block_size) (rounds (block * hash_block_size) size)).0 e
                b (omega arith) (ground arith),
          λ all.
              (blocks_set_iff (block * hash_block_size) (rounds (block * hash_block_size) size)).1
                (λ b lo hi. all b (omega arith) (ground arith)),
        )
      ]

  last_byte : ℕ → ℕ
  last_byte rest = if rest == 0 then 0xff else ones rest

  last_byte-lt : (rest : ℕ) → rest < 8 → last_byte rest < 256
  unfolding last_byte
  last_byte-lt rest lt = ground (arith, ones-lt rest)

  bit-last_byte :
      (rest k : ℕ) → rest < 8 → k < 8 → bit (last_byte rest) k ≡ ((rest == 0) || ltb k rest)
  unfolding last_byte
  bit-last_byte rest k lt hk = ground (arith, bit-ones rest k, bit_full k hk)

  last_test_iff :
      (size : ℕ)
      → size % 4096 ≡ 0
      → 0 < size
      → ((bit_and (get_or m (map_bytes size - 1) 0) (last_byte (size / 4096 % 8))
            == last_byte (size / 4096 % 8))
          ≡ true)
        ↔ ((b : ℕ) → b / 8 ≡ map_bytes size - 1 → b < size / 4096 → cached m b ≡ true)
  last_test_iff size aligned pos =
      let blocks =
        covers_blocks m (map_bytes size - 1) (last_byte (size / 4096 % 8)) h
          (last_byte-lt _ (omega arith)) in
      (
        λ e b q hi. blocks.0 e b q (ground (arith, bit-last_byte (size / 4096 % 8) (b % 8))),
        λ all.
            blocks.1 (λ b q on. all b q (ground (arith, bit-last_byte (size / 4096 % 8) (b % 8)))),
      )

  complete_test :
      (size : ℕ)
      → map_complete m size ≡ (
          all_full m 0 (map_bytes size - 1)
          && (bit_and (get_or m (map_bytes size - 1) 0) (last_byte (size / 4096 % 8))
              == last_byte (size / 4096 % 8)))
  unfolding map_complete last_byte
  complete_test size = refl

  pub map_complete_iff :
      (size : ℕ)
      → size % 4096 ≡ 0
      → 0 < size
      → (map_complete m size ≡ true) ↔ AllCached m 0 (size / 4096)
  map_complete_iff size aligned pos = rw complete_test (
    λ e b lo hi. elim (Bool-cases (ltb (b / 8) (map_bytes size - 1))) [
      | inl before ↦
          (all_full_iff m 0 (map_bytes size - 1) h).0 (ground (arith, e)) b (omega arith)
            (ground arith)
      | inr at ↦ (last_test_iff size aligned pos).0 (ground (arith, e)) b (ground arith) hi
    ],
    λ all. ground (
      arith,
      (all_full_iff m 0 (map_bytes size - 1) h).1 (λ b lo hi. all b (omega arith) (omega arith)),
      (last_test_iff size aligned pos).1 (λ b q hi. all b (omega arith) hi),
    ),
  )

abbrev pub AllPresent : Image → Type 0
AllPresent image = (b : ℕ) → b < image.virtual_filesize / 4096 → present image b ≡ true

module _ (image : Image) (pos : 0 < image.virtual_filesize) where
  is_complete-none : image.cache_map ≡ none → is_complete image ≡ (image, true, false)
  unfolding is_complete
  is_complete-none e = ground arith

  module _ (c : CacheMap) (e : image.cache_map ≡ some c) where
    is_complete_full :
        map_complete c.map image.virtual_filesize ≡ true
        → is_complete image ≡ (record image { cache_map = none }, true, true)
    unfolding is_complete
    is_complete_full t = ground arith

    is_complete_partial :
        map_complete c.map image.virtual_filesize ≡ false
        → is_complete image ≡ (image, false, false)
    unfolding is_complete
    is_complete_partial t = ground arith

    AllPresent-iff : AllPresent image ↔ AllCached c.map 0 (image.virtual_filesize / 4096)
    AllPresent-iff = (
      λ all b lo hi. ground (arith, all b hi),
      λ all b hi. ground (arith, all b (omega arith) hi),
    )

-- `image_isComplete`, for an image that is not empty: it answers true exactly when every block is
-- present; then the image has no cache map any more, and the map file is removed if there was one.
-- No block of the image becomes present or missing, and the image stays well formed.
pub is_complete_lem :
    (image : Image)
    → IsValid image
    → 0 < image.virtual_filesize
    → let (image', answer, unlinked) = is_complete image in
      ((answer ≡ true) ↔ AllPresent image)
      × (answer ≡ true → image'.cache_map ≡ none)
      × ((unlinked ≡ true) ↔ ((answer ≡ true) × (image.cache_map ≢ none)))
      × ((b : ℕ) → b < image.virtual_filesize / 4096 → present image' b ≡ present image b)
      × IsValid image'
is_complete_lem image v pos = elim (Option-cases image.cache_map) [
  | inl e ↦
      rw (is_complete-none image pos e) (
        (λ _ b hi. ground arith, λ _. refl),
        λ _. e,
        (λ f. cc, λ p. absurd (p.1 e)),
        λ b hi. refl,
        v,
      )
  | inr (c, e) ↦
      let m = IsSized-cache_map image v c e in
      let iff = map_complete_iff c.map m.1 image.virtual_filesize v.aligned pos in
      let all = AllPresent-iff image pos c e in
      elim (Bool-cases (map_complete c.map image.virtual_filesize)) [
        | inl t ↦ rw (is_complete_full image pos c e t) (
          (λ _. all.1 (iff.0 t), λ _. refl),
          λ _. refl,
          (λ _. (refl, λ n. cc (sym e ∙ n)), λ _. refl),
          λ b hi. sym (all.1 (iff.0 t) b hi),
          IsValid-change image _ none v refl refl tt,
        )
        | inr t ↦ rw (is_complete_partial image pos c e t) (
          (λ f. cc, λ a. cc (iff.1 (all.0 a))),
          λ f. cc,
          (λ f. cc, λ p. cc (p.0)),
          λ b hi. refl,
          v,
        )
      ]
]
