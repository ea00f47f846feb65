-- ===== src/CacheMap/Clear.antt =====
-- `image_updateCachemap` with `set` false, against the set of present blocks.
use dnbd.Base.{
  subst, ℕ, ◌+◌, ◌^◌, ◌/◌, ◌%◌, ◌<◌, ◌≤◌, ◌≡◌, refl, sym, ◌∙◌, Bool, true, false, ◌&&◌, not, none,
  some, Option-cases, arith, leb, Bool-cases, inl, inr, length, length-replicate, All-replicate,
  get_or-replicate, replicate,
}
use dnbd.Base.Bits.{bit_full}
use dnbd.Image.{Image, CacheMap, align_down, align_up, map_bytes}
use dnbd.Integrity.{CheckQueue}
use dnbd.CacheMap.Defs.{
  clear_range, to_int, byte_size, alloc_cache_map, update_clear, update_cachemap,
}
use dnbd.CacheMap.Cached.{cached}
use dnbd.CacheMap.Range.{cached-clear_range, length-clear_range, clear_range-IsBytes}
use dnbd.CacheMap.View.{present, IsSized, IsValid, IsValid-change, IsSized-cache_map, touches}

-- Marking bytes as missing.
module _ (junk : Bool) (image : Image) (v : IsValid image) (start end : ℕ) (ordered : start ≤ end)
    (within : end ≤ image.virtual_filesize)
    (mappable : image.virtual_filesize + 32767 < 2 ^ 46) where
  byte_size-map_bytes : byte_size image ≡ map_bytes image.virtual_filesize
  unfolding byte_size to_int
  byte_size-map_bytes = ground (arith, mappable)

  abbrev full_map : CacheMap
  full_map = record { dirty = junk; map = replicate (map_bytes image.virtual_filesize) 0xff }

  abbrev clear_map : CacheMap → CacheMap
  clear_map c = record { dirty = true; map = clear_range c.map (align_down start) (align_up end) }

  -- Is there no block to clear?
  abbrev nothing : Bool
  nothing = leb (align_up end) (align_down start)

  kept-update_clear : nothing ≡ true → update_clear junk image start end ≡ image
  unfolding update_clear
  kept-update_clear e = ground arith

  some-update_clear :
      (c : CacheMap)
      → nothing ≡ false
      → image.cache_map ≡ some c
      → (update_clear junk image start end).cache_map ≡ some (clear_map c)
  unfolding update_clear alloc_cache_map
  some-update_clear c full e = ground arith

  none-update_clear :
      nothing ≡ false
      → image.cache_map ≡ none
      → (update_clear junk image start end).cache_map ≡ some (clear_map full_map)
  unfolding update_clear alloc_cache_map
  none-update_clear full e = ground (arith, byte_size-map_bytes)

  size-update_clear : (update_clear junk image start end).virtual_filesize ≡ image.virtual_filesize
  unfolding update_clear alloc_cache_map
  size-update_clear = ground arith

  clear_map-IsSized :
      (c : CacheMap)
      → IsSized image.virtual_filesize (some c)
      → IsSized image.virtual_filesize (some (clear_map c))
  clear_map-IsSized c h = (length-clear_range c.map _ _ ∙ h.0, clear_range-IsBytes c.map _ _ h.1)

  cached-clear_map :
      (c : CacheMap) (b : ℕ)
      → nothing ≡ false
      → length c.map ≡ map_bytes image.virtual_filesize
      → cached (clear_map c).map b ≡ (cached c.map b && not (touches start end b))
  cached-clear_map c b full sized = ground (
    arith,
    v.small,
    v.aligned,
    cached-clear_range c.map (align_down start) (align_up end) (omega arith) (omega arith)
        (ground (arith, v.small)) (ground (arith, v.small, v.aligned, within)) b,
  )

  full_map-IsSized : IsSized image.virtual_filesize (some full_map)
  full_map-IsSized = (
    length-replicate (map_bytes image.virtual_filesize) 0xff,
    All-replicate _ _ 0xff (omega arith),
  )

  cached-full_map : (b : ℕ) → b < image.virtual_filesize / 4096 → cached full_map.map b ≡ true
  unfolding cached
  cached-full_map b h =
      rw (get_or-replicate {A = ℕ} (map_bytes image.virtual_filesize) (b / 8) 0xff 0 (omega arith))
        (bit_full (b % 8) (omega arith))

  present-update_clear :
      (b : ℕ)
      → b < image.virtual_filesize / 4096
      → present (update_clear junk image start end) b
        ≡ (present image b && not (touches start end b))
  present-update_clear b h = elim (Bool-cases nothing) [
    | inl e ↦ rw (kept-update_clear e) (ground (arith, v.small))
    | inr full ↦ elim (Option-cases image.cache_map) [
      | inl e ↦ ground (
        arith,
        none-update_clear full e,
        cached-clear_map full_map b full full_map-IsSized.0,
        cached-full_map b h,
      )
      | inr (c, e) ↦ ground (
        arith,
        some-update_clear c full e,
        cached-clear_map c b full (IsSized-cache_map image v c e).0,
      )
    ]
  ]

  update_clear-IsValid : IsValid (update_clear junk image start end)
  update_clear-IsValid = elim (Bool-cases nothing) [
    | inl e ↦ subst IsValid (sym (kept-update_clear e)) v
    | inr full ↦ elim (Option-cases image.cache_map) [
      | inl e ↦
          IsValid-change image _ _ v size-update_clear (none-update_clear full e)
            (clear_map-IsSized full_map full_map-IsSized)
      | inr (c, e) ↦
          IsValid-change image _ _ v size-update_clear (some-update_clear c full e)
            (clear_map-IsSized c (IsSized-cache_map image v c e))
    ]
  ]

  -- `image_updateCachemap(image, start, end, false)`, for a range that ends within the image,
  -- and an image so small (below 2 ^ 46 - 32767 bytes) that the size of its map is an `int`: no
  -- assertion fails, the image stays well formed, and of the image's blocks exactly those become
  -- missing that have a byte in the range, also where the image had no cache map because it was
  -- complete. The integrity queue is left alone.
  pub update_cachemap-clear :
      (q : CheckQueue)
      → (r : Image × CheckQueue) × (update_cachemap junk image q start end false ≡ some r)
        × IsValid r.0
        × (r.1 ≡ q)
        × ((b : ℕ)
            → b < image.virtual_filesize / 4096
            → present r.0 b ≡ (present image b && not (touches start end b)))
  unfolding update_cachemap
  update_cachemap-clear q = (
    (update_clear junk image start end, q),
    ground arith,
    update_clear-IsValid,
    refl,
    present-update_clear,
  )
