-- ===== src/Images/Listing.antt =====
-- Images come into the list, and those without a user leave it.
use dnbd.Base.{
  ℕ, ◌≤◌, ◌≡◌, refl, sym, ap, ◌∙◌, false, ◌&&◌, Option, none, some, List, [], ◌∷◌, ltb, ◌==◌,
  if◌then◌else◌, Bool-cases, inl, inr, length, arith,
}
use dnbd.Images.Defs.{Object, Images, store, free_unused, try_free_all}
use dnbd.Images.Valid.{places, IsValid, places-keep_slot, length-keep_slot}

-- What `free_unused` does to an object that is in `listed` slots.
record Unused (o o' : Object) (listed listed' : ℕ) : Type 0 where
  pub users : o'.users ≡ o.users
  pub id : o'.id ≡ o.id
  pub left : listed' ≡ (if o.users == 0 then 0 else listed)
  pub alive : o'.alive ≡ (if (o.users == 0) && ltb 0 listed then false else o.alive)

free_unused-Unused :
    (h : ℕ → Object) (slots : List (Option ℕ)) (b : ℕ)
    → Unused (h b) ((free_unused h slots).1 b) (places b slots) (places b ((free_unused h slots).0))
unfolding free_unused places store
free_unused-Unused h [] b = record {
  users = refl;
  id = refl;
  left = ground arith;
  alive = ground arith;
}
free_unused-Unused h (none ∷ slots) b =
    let u = free_unused-Unused h slots b in
    record {
      users = u.users;
      id = u.id;
      left = places-keep_slot b none _ ∙ u.left;
      alive = u.alive;
    }
free_unused-Unused h (some a ∷ slots) b =
    let u = free_unused-Unused h slots b in
    let at_a = free_unused-Unused h slots a in
    elim (Bool-cases (((free_unused h slots).1 a).users == 0)) [
      | inl t ↦
          let gap = places-keep_slot b none (free_unused h slots).0 in
          elim (Bool-cases (b == a)) [
            | inl e ↦
                let same : b ≡ a = ground arith in
                let users_of : (h b).users ≡ (h a).users = ap (λ c. (h c).users) same in
                rw (t, e)
                  (record {
                    users = at_a.users ∙ sym users_of;
                    id = at_a.id ∙ sym (ap (λ c. (h c).id) same);
                    left = ground (arith, gap, u.left, u.users, at_a.users, users_of);
                    alive = ground (arith, at_a.users, users_of);
                  })
            | inr n ↦
                rw (t, n)
                  (record {
                    users = u.users;
                    id = u.id;
                    left = ground (arith, gap, u.left);
                    alive = ground (arith, u.alive);
                  })
          ]
      | inr f ↦
          let kept = places-keep_slot b (some a) (free_unused h slots).0 in
          elim (Bool-cases (b == a)) [
            | inl e ↦
                let same : b ≡ a = ground arith in
                let users_of : (h b).users ≡ (h a).users = ap (λ c. (h c).users) same in
                rw f (record {
                  users = u.users;
                  id = u.id;
                  left = ground (arith, kept, u.left, at_a.users, users_of);
                  alive = ground (arith, u.alive, at_a.users, users_of);
                })
            | inr n ↦ rw f (record {
              users = u.users;
              id = u.id;
              left = ground (arith, kept, u.left);
              alive = ground (arith, u.alive);
            })
          ]
    ]

length-free_unused :
    (h : ℕ → Object) (slots : List (Option ℕ)) → length (free_unused h slots).0 ≤ length slots
unfolding free_unused
length-free_unused h [] = omega arith
length-free_unused h (none ∷ slots) =
    omega (arith, length-keep_slot none (free_unused h slots).0, length-free_unused h slots)
length-free_unused h (some a ∷ slots) =
    let rest = length-free_unused h slots in
    let r = (free_unused h slots).0 in
    elim (Bool-cases (((free_unused h slots).1 a).users == 0)) [
      | inl t ↦ rw t (omega (arith, length-keep_slot none r, rest))
      | inr f ↦ rw f (omega (arith, length-keep_slot (some a) r, rest))
    ]

pub try_free_all-IsValid :
    (s : Images) (holders : List ℕ) → IsValid s holders → IsValid ((try_free_all s).1) holders
unfolding try_free_all
try_free_all-IsValid s holders v = record {
  objects = λ b.
      let o = v.objects b in
      let u = free_unused-Unused s.heap s.slots b in
      record {
        counted = u.users ∙ o.counted;
        living = ground (arith, u.alive, u.left, o.living, o.counted);
        once = ground (arith, u.left, o.once);
        numbered = ground (arith, u.left, u.id, o.numbered);
      };
  unused =
      λ b h. let u = free_unused-Unused s.heap s.slots b in ground (arith, u.alive, v.unused b h);
  unique = λ b c pb pc e.
      let ub = free_unused-Unused s.heap s.slots b in
      let uc = free_unused-Unused s.heap s.slots c in
      v.unique b c (ground (arith, ub.left)) (ground (arith, uc.left)) (sym ub.id ∙ (e ∙ uc.id));
  bounded = omega (arith, length-free_unused s.heap s.slots, v.bounded);
}
