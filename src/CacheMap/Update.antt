-- ===== src/CacheMap/Update.antt =====
-- `image_updateCachemap` with `set` true, against the set of present blocks.
use dnbd.Base.{
  ℕ, ◌≤◌, ◌≡◌, ◌∙◌, Bool, true, ◌||◌, none, some, Option-cases, arith, leb, Bool-cases, inl, inr,
  if◌then◌else◌, length,
}
use dnbd.Image.{Image, CacheMap, align_down, align_up, map_bytes}
use dnbd.Integrity.{CheckQueue}
use dnbd.CacheMap.Defs.{set_range, update_set, update_cachemap}
use dnbd.CacheMap.Cached.{cached}
use dnbd.CacheMap.Range.{cached-set_range, length-set_range, set_range-IsBytes}
use dnbd.CacheMap.View.{present, IsSized, IsValid, IsValid-change, IsSized-cache_map, inside}

-- Marking bytes present.
module _ (image : Image) (v : IsValid image) (q : CheckQueue) (start end : ℕ)
    (ordered : start ≤ end) (within : end ≤ image.virtual_filesize) where
  abbrev set_map : CacheMap → CacheMap
  set_map c =
      if leb (align_down end) (align_up start)
      then c
      else record c { map = (set_range c.map (align_up start) (align_down end)).0 }

  cache_map-update_set :
      (c : CacheMap)
      → image.cache_map ≡ some c
      → (update_set image q start end).0.cache_map ≡ some (set_map c)
  unfolding update_set
  cache_map-update_set c e = ground arith

  cached-set_map :
      (c : CacheMap) (b : ℕ)
      → length c.map ≡ map_bytes image.virtual_filesize
      → cached (set_map c).map b ≡ (cached c.map b || inside start end b)
  cached-set_map c b sized = elim (Bool-cases (leb (align_down end) (align_up start))) [
    | inl empty ↦ rw empty (ground (arith, v.small))
    | inr full ↦ rw full (
        ground (
          arith,
          v.small,
          cached-set_range c.map (align_up start) (align_down end) (omega arith) (omega arith)
              (ground (arith, v.small)) (ground (arith, v.small, within)) b,
        ))
  ]

  set_map-IsSized :
      (c : CacheMap)
      → IsSized image.virtual_filesize (some c)
      → IsSized image.virtual_filesize (some (set_map c))
  set_map-IsSized c h = elim (Bool-cases (leb (align_down end) (align_up start))) [
    | inl empty ↦ rw empty h
    | inr full ↦ rw full (length-set_range c.map _ _ ∙ h.0, set_range-IsBytes c.map _ _ h.1)
  ]

  present-update_set :
      (b : ℕ) → present (update_set image q start end).0 b ≡ (present image b || inside start end b)
  unfolding update_set
  present-update_set b = elim (Option-cases image.cache_map) [
    | inl e ↦ ground arith
    | inr (c, e) ↦ ground (arith, cached-set_map c b (IsSized-cache_map image v c e).0)
  ]

  size-update_set : (update_set image q start end).0.virtual_filesize ≡ image.virtual_filesize
  unfolding update_set
  size-update_set = ground arith

  none-update_set : image.cache_map ≡ none → (update_set image q start end).0.cache_map ≡ none
  unfolding update_set
  none-update_set e = ground arith

  update_set-IsValid : IsValid (update_set image q start end).0
  update_set-IsValid = elim (Option-cases image.cache_map) [
    | inl e ↦ IsValid-change image _ none v size-update_set (none-update_set e) tt
    | inr (c, e) ↦
        IsValid-change image _ (some (set_map c)) v size-update_set (cache_map-update_set c e)
          (set_map-IsSized c (IsSized-cache_map image v c e))
  ]

  -- `image_updateCachemap(image, start, end, true)`, for a range that ends within the image: no
  -- assertion fails, the image stays well formed, and exactly those blocks become present that lie
  -- wholly within the range; all others stay as they were.
  pub update_cachemap-set :
      (junk : Bool)
      → (r : Image × CheckQueue) × (update_cachemap junk image q start end true ≡ some r)
        × IsValid r.0
        × ((b : ℕ) → present r.0 b ≡ (present image b || inside start end b))
  unfolding update_cachemap
  update_cachemap-set junk =
      (update_set image q start end, ground arith, update_set-IsValid, present-update_set)
