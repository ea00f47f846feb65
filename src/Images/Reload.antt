-- ===== src/Images/Reload.antt =====
-- A reload keeps the image list well formed, whether the copy finds a slot or not.
use dnbd.Base.{
  ℕ, ◌<◌, ◌≡◌, refl, sym, ap, subst, Bool, true, false, Option, none, some, List, ◌∷◌, ◌==◌,
  Bool-cases, inl, inr, arith,
}
use dnbd.Images.Defs.{Images, remove, give_back, swap, reload, reopen}
use dnbd.Images.Valid.{places, count, drop_one, count-drop_one, ObjectIsValid, IsValid}
use dnbd.Images.Steps.{release-IsValid, remove-IsValid}
use dnbd.Images.New.{with_added, add-IsValid}

-- The caller held `a` and now holds the image that it gets.
pub record Swapped (a : ℕ) (holders : List ℕ) (r : Option (ℕ × Images)) : Type 0 where
  pub image : ℕ
  pub state : Images
  pub result : r ≡ some (image, state)
  pub valid : IsValid state (image ∷ drop_one a holders)

-- Whose counts agree may stand for one another.
pub holders-IsValid :
    (s : Images) (holders holders' : List ℕ)
    → ((b : ℕ) → count b holders' ≡ count b holders)
    → IsValid s holders
    → IsValid s holders'
holders-IsValid s holders holders' same v = record {
  objects = λ b.
      subst (λ k. ObjectIsValid s.id_counter (s.heap b) (places b s.slots) k) (sym (same b))
        (v.objects b);
  unused = v.unused;
  unique = v.unique;
  bounded = v.bounded;
}

count-drop_cons :
    (a : ℕ) (holders : List ℕ)
    → 0 < count a holders
    → (b : ℕ) → count b (a ∷ drop_one a holders) ≡ count b holders
unfolding count
count-drop_cons a holders held b =
    let less = count-drop_one a b holders held in
    elim (Bool-cases (b == a)) [
      | inl e ↦
          let same : count b holders ≡ count a holders = ap (λ c. count c holders) (ground arith) in
          ground (arith, less, same)
      | inr n ↦ ground (arith, less)
    ]

count-cons_drop :
    (a c : ℕ) (holders : List ℕ)
    → 0 < count a holders
    → (b : ℕ) → count b (c ∷ drop_one a holders) ≡ count b (drop_one a (c ∷ holders))
unfolding count
count-cons_drop a c holders held b =
    let less = count-drop_one a b holders held in
    let less' = count-drop_one a b (c ∷ holders) (ground arith) in
    elim (Bool-cases (b == a)) [
      | inl e ↦
          let same : count b holders ≡ count a holders = ap (λ c. count c holders) (ground arith) in
          ground (arith, less, less', same)
      | inr n ↦ ground (arith, less, less')
    ]

count-more : (a c : ℕ) (holders : List ℕ) → 0 < count a holders → 0 < count a (c ∷ holders)
unfolding count
count-more a c holders held = ground arith

-- The caller keeps the image that it held.
kept :
    (s : Images) (holders : List ℕ) (a : ℕ)
    → IsValid s holders
    → 0 < count a holders
    → Swapped a holders (some (a, s))
kept s holders a v held = record {
  image = a;
  state = s;
  result = refl;
  valid = holders-IsValid s holders (a ∷ drop_one a holders) (count-drop_cons a holders held) v;
}

swap-Swapped :
    (a : ℕ) (holders : List ℕ) (r : Option ℕ × Images)
    → 0 < count a holders
    → IsValid (r.1) (with_added 1 (r.0) holders)
    → Swapped a holders (swap a r)
unfolding swap
swap-Swapped a holders (none, s) held v = kept s holders a v held
swap-Swapped a holders (some c, s) held v =
    let given = release-IsValid s (c ∷ holders) a v (count-more a c holders held) in
    record {
      image = c;
      state = give_back a s;
      result = rw (given.0, swap) refl;
      valid = holders-IsValid _ _ _ (count-cons_drop a c holders held) given.1;
    }

pub reload-Swapped :
    (s : Images) (holders : List ℕ) (a : ℕ)
    → IsValid s holders
    → 0 < count a holders
    → Swapped a holders (reload a s)
unfolding reload
reload-Swapped s holders a v held =
    swap-Swapped a holders _ held
      (add-IsValid (remove a s) holders _ (remove-IsValid s holders a v) (omega arith))

pub reopen-Swapped :
    (usable missing has_fd : Bool) (s : Images) (holders : List ℕ) (a : ℕ)
    → IsValid s holders
    → 0 < count a holders
    → Swapped a holders (reopen usable missing has_fd a s)
unfolding reopen
reopen-Swapped true missing has_fd s holders a v held = kept s holders a v held
reopen-Swapped false true has_fd s holders a v held =
    kept (remove a s) holders a (remove-IsValid s holders a v) held
reopen-Swapped false false true s holders a v held = reload-Swapped s holders a v held
reopen-Swapped false false false s holders a v held = kept s holders a v held
