-- ===== src/Images/Steps.antt =====
-- Every function of the image list keeps `IsValid`, with the holders that its caller then has.
use dnbd.Base.{ℕ, ◌<◌, ◌≡◌, refl, true, false, some, List, ◌∷◌, ◌==◌, inl, arith}
use dnbd.Images.Defs.{Images, use_one, vacate, remove, release, give_back}
use dnbd.Images.Valid.{
  count, drop_one, IsValid, is_listed-places, places-vacate, length-vacate, count-drop_one,
  count_other, count_self, store-IsValid,
}

-- A new holder of an image that lives.
pub use_one-IsValid :
    (s : Images) (holders : List ℕ) (a : ℕ)
    → IsValid s holders
    → (s.heap a).alive ≡ true
    → IsValid (record s { heap = use_one s.heap a }) (a ∷ holders)
use_one-IsValid s holders a v live =
    let o = v.objects a in
    let self = count_self a holders in
    store-IsValid s holders a _ s.slots (a ∷ holders) v refl (λ h. v.unused a h)
      (record {
        counted = omega (arith, o.counted, self);
        living = ground (arith, live, self);
        once = o.once;
        numbered = o.numbered;
      })
      (λ b. omega arith) (λ b n. (refl, count_other a b holders n)) (omega arith)

-- A holder gives the image back: the assertion of `image_release` holds.
pub release-IsValid :
    (s : Images) (holders : List ℕ) (a : ℕ)
    → IsValid s holders
    → 0 < count a holders
    → (release a s ≡ some (give_back a s)) × IsValid (give_back a s) (drop_one a holders)
unfolding release give_back
release-IsValid s holders a v held =
    let o = v.objects a in
    let self = count-drop_one a a holders held in
    let listed = is_listed-places a s.slots in
    let used : ((s.heap a).users == 0) ≡ false = ground (arith, o.counted) in
    (
      rw used refl,
      store-IsValid s holders a _ s.slots (drop_one a holders) v refl
          (λ h. ground (arith, v.unused a h))
          (record {
            counted = ground (arith, o.counted, self);
            living = ground (arith, o.counted, o.living, self, listed, held);
            once = o.once;
            numbered = o.numbered;
          })
          (λ b. omega arith) (λ b n. (refl, ground (arith, count-drop_one a b holders held)))
          (omega arith),
    )

-- An image leaves the list, whoever holds it.
pub remove-IsValid :
    (s : Images) (holders : List ℕ) (a : ℕ) → IsValid s holders → IsValid (remove a s) holders
unfolding remove
remove-IsValid s holders a v =
    let o = v.objects a in
    let gone = places-vacate a a s.slots in
    let listed = is_listed-places a s.slots in
    store-IsValid s holders a _ (vacate a s.slots) holders v refl
      (λ h. ground (arith, v.unused a h))
      (record {
        counted = o.counted;
        living = ground (arith, o.counted, o.living, gone, listed);
        once = ground (arith, gone);
        numbered = inl (ground (arith, gone));
      })
      (λ b. ground (arith, places-vacate a b s.slots))
      (λ b n. (ground (arith, places-vacate a b s.slots), refl)) (length-vacate a s.slots)
