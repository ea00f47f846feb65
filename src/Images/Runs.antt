-- ===== src/Images/Runs.antt =====
-- The server's threads call the functions of the image list in any order; each runs under
-- `imageListLock`, and a thread releases only what it holds.
use dnbd.Base.{
  ℕ, ◌+◌, ◌≤◌, ◌<◌, ◌≡◌, refl, sym, ◌∙◌, subst, Bool, true, false, some, List, [], ◌∷◌, ltb, inl,
  arith,
}
use mathlib.Core.Option.{some-injective}
use dnbd.Images.Defs.{
  Object, Images, by_id, get, lock, add, remove, release, give_back, reopen, try_free_all,
}
use dnbd.Images.Valid.{places, count, drop_one, IsValid}
use dnbd.Images.Steps.{release-IsValid, remove-IsValid}
use dnbd.Images.Search.{handed, by_id-IsValid, get-IsValid, lock-IsValid}
use dnbd.Images.Listing.{try_free_all-IsValid}
use dnbd.Images.New.{with_added, add-IsValid}
use dnbd.Images.Reload.{reopen-Swapped}

-- `image_byId`, `image_get`, `image_lock`, `image_release`, `image_remove`, `image_tryFreeAll`, the
-- reload of `image_get`, and a new image, by one caller.
pub data Step : Images → List ℕ → Images → List ℕ → Type 0 where
  by_id_step :
      (image_id : ℕ) {s : Images} {holders : List ℕ}
      → Step s holders ((by_id image_id s).1) (handed ((by_id image_id s).0) holders)
  get_step :
      (name : List ℕ) (revision : ℕ) {s : Images} {holders : List ℕ}
      → Step s holders ((get name revision s).1) (handed ((get name revision s).0) holders)
  lock_step :
      (a : ℕ) {s : Images} {holders : List ℕ}
      → Step s holders ((lock a s).1) (handed ((lock a s).0) holders)
  release_step :
      (a : ℕ) {s s' : Images} {holders : List ℕ}
      → 0 < count a holders
      → release a s ≡ some s'
      → Step s holders s' (drop_one a holders)
  reopen_step :
      (usable missing has_fd : Bool) (a b : ℕ) {s s' : Images} {holders : List ℕ}
      → 0 < count a holders
      → reopen usable missing has_fd a s ≡ some (b, s')
      → Step s holders s' (b ∷ drop_one a holders)
  remove_step : (a : ℕ) {s : Images} {holders : List ℕ} → Step s holders (remove a s) holders
  free_step : {s : Images} {holders : List ℕ} → Step s holders ((try_free_all s).1) holders
  add_step :
      (o : Object) {s : Images} {holders : List ℕ}
      → o.users ≤ 1
      → Step s holders ((add o s).1) (with_added o.users ((add o s).0) holders)

-- The list of a server that has just started.
abbrev pub nothing : Object
nothing = record { name = []; rid = 0; id = 0; users = 0; alive = false }

abbrev pub empty : ℕ → Images
empty max_images = record {
  slots = [];
  heap = λ a. nothing;
  next = 0;
  id_counter = 0;
  max_images = max_images;
}

pub data Reachable (max_images : ℕ) : Images → List ℕ → Type 0 where
  start : Reachable max_images (empty max_images) []
  after :
      {s s' : Images} {holders holders' : List ℕ}
      → Reachable max_images s holders
      → Step s holders s' holders'
      → Reachable max_images s' holders'

empty-IsValid : (max_images : ℕ) → IsValid (empty max_images) []
unfolding count places
empty-IsValid max_images = record {
  objects = λ a. record { counted = refl; living = refl; once = omega arith; numbered = inl refl };
  unused = λ a h. refl;
  unique = λ a b pa pb e. absurd (omega arith);
  bounded = omega arith;
}

Step-IsValid :
    {s s' : Images} {holders holders' : List ℕ}
    → Step s holders s' holders'
    → IsValid s holders
    → IsValid s' holders'
Step-IsValid (by_id_step image_id) v = by_id-IsValid image_id _ _ v
Step-IsValid (get_step name revision) v = get-IsValid name revision _ _ v
Step-IsValid (lock_step a) v = lock-IsValid a _ _ v
Step-IsValid {s} {s'} {holders} (release_step a held e) v =
    let given = release-IsValid s holders a v held in
    subst (λ k. IsValid k (drop_one a holders)) (some-injective _ _ (sym given.0 ∙ e)) given.1
Step-IsValid {s} {s'} {holders} (reopen_step usable missing has_fd a b held e) v =
    let swapped = reopen-Swapped usable missing has_fd s holders a v held in
    subst (λ k. IsValid (k.1) (k.0 ∷ drop_one a holders))
      (some-injective _ _ (sym swapped.result ∙ e)) swapped.valid
Step-IsValid (remove_step a) v = remove-IsValid _ _ a v
Step-IsValid free_step v = try_free_all-IsValid _ _ v
Step-IsValid {s} {s'} {holders} (add_step o few) v = add-IsValid s holders o v few

-- After any sequence of calls the image list is well formed: the counter of every image is the number
-- of its holders, its memory is live exactly when it is listed or held, it is in at most one slot, no
-- two listed images have one number, and at most max_images slots are in use.
pub Reachable-IsValid :
    (max_images : ℕ) {s : Images} {holders : List ℕ}
    → Reachable max_images s holders
    → IsValid s holders
Reachable-IsValid max_images start = empty-IsValid max_images
Reachable-IsValid max_images (after r t) = Step-IsValid t (Reachable-IsValid max_images r)

-- After any sequence of calls, an image that somebody holds is live memory, its release passes the
-- assertion in image_release, the image stays live if it has another holder or is listed, and its
-- memory is freed otherwise.
pub release-lifetime :
    (max_images : ℕ) {s : Images} {holders : List ℕ} (a : ℕ)
    → Reachable max_images s holders
    → 0 < count a holders
    → ((s.heap a).alive ≡ true)
      × ((release a s ≡ some (give_back a s))
          × (((give_back a s).heap a).alive
              ≡ ltb 0 (places a s.slots + count a (drop_one a holders))))
unfolding give_back
release-lifetime max_images {s} {holders} a r held =
    let v = Reachable-IsValid max_images r in
    let given = release-IsValid s holders a v held in
    (ground (arith, (v.objects a).living, held), (given.0, (given.1.objects a).living))
