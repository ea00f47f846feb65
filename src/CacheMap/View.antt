-- ===== src/CacheMap/View.antt =====
-- An image as the set of its present blocks, and when its cache map is well formed.
use dnbd.Base.{
  sym, subst, arith, ℕ, ◌+◌, ◌*◌, ◌%◌, ◌^◌, ◌≤◌, ◌≡◌, Bool, true, ◌&&◌, Option, none, some, ltb,
  leb, length,
}
use dnbd.Image.{Image, CacheMap, map_bytes}
use dnbd.CacheMap.Cached.{cached, IsBytes}

-- An image with no cache map is complete.
abbrev pub present : Image → ℕ → Bool
present image b = elim image.cache_map [ none ↦ true | some c ↦ cached c.map b ]

abbrev pub IsSized : ℕ → Option CacheMap → Type 0
IsSized size none = Unit {0}
IsSized size (some c) = (length c.map ≡ map_bytes size) × IsBytes c.map

-- The virtual size is a multiple of the block size; 2 ^ 62 keeps every sum below 2 ^ 64.
pub record IsValid (image : Image) : Type 0 where
  pub sized : IsSized image.virtual_filesize image.cache_map
  pub aligned : image.virtual_filesize % 4096 ≡ 0
  pub small : image.virtual_filesize ≤ 2 ^ 62

-- Block `b` lies wholly between the bytes `start` and `end`; or it has a byte between them.
abbrev pub inside : ℕ → ℕ → ℕ → Bool
inside start end b = leb start (b * 4096) && leb ((b + 1) * 4096) end

abbrev pub touches : ℕ → ℕ → ℕ → Bool
touches start end b = ltb start ((b + 1) * 4096) && ltb (b * 4096) end

-- An image of the same size with another well formed map.
pub IsValid-change :
    (image image' : Image) (o : Option CacheMap)
    → IsValid image
    → image'.virtual_filesize ≡ image.virtual_filesize
    → image'.cache_map ≡ o
    → IsSized image.virtual_filesize o
    → IsValid image'
IsValid-change image image' o v same is h = record {
  sized = subst (IsSized image'.virtual_filesize) (sym is) (subst (λ n. IsSized n o) (sym same) h);
  aligned = omega (arith, v.aligned);
  small = omega (arith, v.small);
}

pub IsSized-cache_map :
    (image : Image)
    → IsValid image
    → (c : CacheMap) → image.cache_map ≡ some c
    → IsSized image.virtual_filesize (some c)
IsSized-cache_map image v c e = subst (IsSized image.virtual_filesize) e v.sized
