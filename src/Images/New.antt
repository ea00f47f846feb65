-- ===== src/Images/New.antt =====
-- A new image gets a number that no listed image has, and a slot.
use dnbd.Base.{
  ℕ, suc, ◌+◌, ◌≤◌, ◌<◌, ◌≡◌, ◌≢◌, refl, sym, ap, ◌∙◌, subst, true, false, Option, none, some, List,
  [], ◌∷◌, ◌++◌, ltb, leb, ◌==◌, if◌then◌else◌, Bool-cases, inl, inr, length, length-append, arith,
  ◌⊎◌,
}
use dnbd.Images.Defs.{
  Object, Images, store, fill_slot, new_slots, put_slots, settle, add_to_list, add,
}
use dnbd.Images.Valid.{places, count, ObjectIsValid, IsValid, store-elim, count_other, count_self}

-- The slots with an image more.
abbrev Placed : ℕ → List (Option ℕ) → List (Option ℕ) → Type 0
Placed a slots slots' = (b : ℕ) → places b slots' ≡ (if b == a then 1 else 0) + places b slots

abbrev FilledIsPlaced : ℕ → List (Option ℕ) → Option (List (Option ℕ)) → Type 0
FilledIsPlaced a slots none = Unit
FilledIsPlaced a slots (some filled) = (length filled ≡ length slots) × Placed a slots filled

fill_slot-cons :
    (a c : ℕ) (slots : List (Option ℕ)) (r : Option (List (Option ℕ)))
    → FilledIsPlaced a slots r
    → FilledIsPlaced a (some c ∷ slots) (elim r [ none ↦ none | some rest ↦ some (some c ∷ rest) ])
unfolding places
fill_slot-cons a c slots none p = tt
fill_slot-cons a c slots (some filled) p = (ap suc p.0, λ b. ground (arith, p.1 b))

fill_slot-Placed : (a : ℕ) (slots : List (Option ℕ)) → FilledIsPlaced a slots (fill_slot a slots)
unfolding fill_slot places
fill_slot-Placed a [] = tt
fill_slot-Placed a (none ∷ slots) = (refl, λ b. ground arith)
fill_slot-Placed a (some c ∷ slots) =
    fill_slot-cons a c slots (fill_slot a slots) (fill_slot-Placed a slots)

append-Placed : (a : ℕ) (slots : List (Option ℕ)) → Placed a slots (slots ++ (some a ∷ []))
unfolding places
append-Placed a [] b = ground arith
append-Placed a (none ∷ slots) b = append-Placed a slots b
append-Placed a (some c ∷ slots) b = ground (arith, append-Placed a slots b)

-- The holders when the new image at `a` was made with `users` holders.
abbrev pub with_new : ℕ → ℕ → List ℕ → List ℕ
with_new users a holders = if users == 0 then holders else a ∷ holders

with_new_other :
    (users a b : ℕ) (holders : List ℕ)
    → b ≢ a
    → count b (with_new users a holders) ≡ count b holders
with_new_other users a b holders n = elim (Bool-cases (users == 0)) [
  | inl t ↦ rw t refl
  | inr f ↦ rw f (count_other a b holders n)
]

with_new_self :
    (users a : ℕ) (holders : List ℕ)
    → users ≤ 1
    → count a holders ≡ 0
    → count a (with_new users a holders) ≡ users
with_new_self users a holders few zero_held = elim (Bool-cases (users == 0)) [
  | inl t ↦ rw t (ground arith)
  | inr f ↦ rw f (ground (arith, count_self a holders))
]

-- A listed image is the new one or was listed before.
abbrev Origin : Images → List (Option ℕ) → ℕ → Object → Type 0
Origin s slots b x =
    0 < places b slots
    → ((b ≡ s.next) × (x.id ≡ s.id_counter + 1)) ⊎ ((0 < places b s.slots) × (x.id ≡ (s.heap b).id))

-- A new object: its address was free, and it stands in `listed` new slots.
new-IsValid :
    (s : Images) (holders : List ℕ) (o : Object) (heap : ℕ → Object) (slots : List (Option ℕ))
    (users listed : ℕ)
    → IsValid s holders
    → ((b : ℕ) → heap b ≡ store s.heap s.next o b)
    → o.users ≡ users
    → users ≤ 1
    → listed ≤ 1
    → o.alive ≡ ltb 0 (listed + users)
    → o.id ≡ s.id_counter + 1
    → ((b : ℕ) → places b slots ≡ (if b == s.next then listed else 0) + places b s.slots)
    → length slots ≤ s.max_images
    → IsValid
        (record s { slots = slots; heap = heap; next = s.next + 1; id_counter = s.id_counter + 1 })
        (with_new users s.next holders)
new-IsValid s holders o heap slots users listed v at_heap uses few one living number placed short =
    let old = v.objects s.next in
    let nowhere : places s.next s.slots + count s.next holders ≡ 0 =
      ground (arith, old.living, v.unused s.next (omega arith)) in
    let parts : (places s.next s.slots ≡ 0) × (count s.next holders ≡ 0) =
      (omega arith, omega arith) in
    let self = with_new_self users s.next holders few parts.1 in
    let each : (b : ℕ)
        → ObjectIsValid (s.id_counter + 1) (heap b) (places b slots)
            (count b (with_new users s.next holders)) =
      λ b.
        subst
          (λ x.
            ObjectIsValid (s.id_counter + 1) x (places b slots)
              (count b (with_new users s.next holders)))
          (sym (at_heap b))
          (store-elim
            (λ b x.
              ObjectIsValid (s.id_counter + 1) x (places b slots)
                (count b (with_new users s.next holders)))
            s.heap s.next o
            (record {
              counted = uses ∙ sym self;
              living = ground (arith, living, self, placed s.next, parts.0);
              once = ground (arith, placed s.next, parts.0);
              numbered = inr (omega (arith, number));
            })
            (λ b n.
              let w = v.objects b in
              let others = with_new_other users s.next b holders n in
              record {
                counted = w.counted ∙ sym others;
                living = ground (arith, w.living, others, placed b);
                once = ground (arith, w.once, placed b);
                numbered = ground (arith, w.numbered, placed b);
              })
            b) in
    let id_of : (b : ℕ) → Origin s slots b (heap b) = λ b.
      subst (λ x. Origin s slots b x) (sym (at_heap b))
        (store-elim (λ b x. Origin s slots b x) s.heap s.next o (λ p. inl (refl, number))
          (λ b n p. inr (ground (arith, placed b), refl)) b) in
    record {
      objects = each;
      unused = λ b h.
          subst (λ x. x.alive ≡ false) (sym (at_heap b))
            (store-elim (λ b x. s.next + 1 ≤ b → x.alive ≡ false) s.heap s.next o
              (λ h. absurd (omega arith)) (λ b n h. v.unused b (omega arith)) b h);
      unique = λ b c pb pc e. elim (id_of b pb) [
        | inl nb ↦ elim (id_of c pc) [
          | inl nc ↦ nb.0 ∙ sym nc.0
          | inr oc ↦ absurd (ground (arith, nb.1, oc.1, oc.0, e, (v.objects c).numbered))
        ]
        | inr ob ↦ elim (id_of c pc) [
          | inl nc ↦ absurd (ground (arith, nc.1, ob.1, ob.0, e, (v.objects b).numbered))
          | inr oc ↦ v.unique b c ob.0 oc.0 (sym ob.1 ∙ (e ∙ oc.1))
        ]
      ];
      bounded = short;
    }

-- Writing twice to one address.
store-store :
    (h : ℕ → Object) (a : ℕ) (o o' : Object) (b : ℕ) → store (store h a o) a o' b ≡ store h a o' b
unfolding store
store-store h a o o' b = elim (Bool-cases (b == a)) [ inl e ↦ rw e refl | inr n ↦ rw n refl ]

store_self : (h : ℕ → Object) (a : ℕ) (o : Object) → store h a o a ≡ o
unfolding store
store_self h a o = ground arith

-- The slots that `new_slots` makes.
abbrev NewSlots : ℕ → Images → Option (List (Option ℕ)) → Type 0
NewSlots a s none = Unit
NewSlots a s (some slots) = (length slots ≤ s.max_images) × Placed a s.slots slots

new_slots-NewSlots :
    (a : ℕ) (s : Images) → length s.slots ≤ s.max_images → NewSlots a s (new_slots a s)
unfolding new_slots
new_slots-NewSlots a s short = go (fill_slot a s.slots) (fill_slot-Placed a s.slots)
  where
    go :
        (r : Option (List (Option ℕ)))
        → FilledIsPlaced a s.slots r
        → NewSlots a s (elim r [
          | some slots ↦ some slots
          | none ↦
              if leb s.max_images (length s.slots) then none else some (s.slots ++ (some a ∷ []))
        ])
    go (some slots) p = (omega (arith, p.0), p.1)
    go none p = elim (Bool-cases (leb s.max_images (length s.slots))) [
      | inl t ↦ rw t tt
      | inr f ↦ rw f (ground (arith, length-append s.slots (some a ∷ [])), append-Placed a s.slots)
    ]

-- The holders after `add`.
abbrev pub with_added : ℕ → Option ℕ → List ℕ → List ℕ
with_added users none holders = holders
with_added users (some a) holders = with_new users a holders

module _ (s : Images) (holders : List ℕ) (o : Object) (v : IsValid s holders)
    (few : o.users ≤ 1) where
  numbered : Images
  numbered =
      let h = store s.heap s.next (record o { alive = true }) in
      record s {
        heap = store h s.next (record (h s.next) { id = s.id_counter + 1 });
        next = s.next + 1;
        id_counter = s.id_counter + 1;
      }

  settled :
      (r : Option (List (Option ℕ)))
      → NewSlots s.next s r
      → IsValid
          ((settle s.next (put_slots r numbered)).1)
          (with_added o.users ((settle s.next (put_slots r numbered)).0) holders)
  unfolding settle put_slots numbered
  settled none p =
      let a = s.next in
      let o₁ : Object = record o { alive = true } in
      let h₁ = store s.heap a o₁ in
      let o₂ : Object = record (h₁ a) { id = s.id_counter + 1 } in
      let h₂ = store h₁ a o₂ in
      let o₃ : Object = record (h₂ a) { users = 0; alive = false } in
      new-IsValid s holders o₃ (store h₂ a o₃) s.slots 0 0 v
        (λ b. store-store h₁ a o₂ o₃ b ∙ store-store s.heap a o₁ o₃ b) refl (omega arith)
        (omega arith) refl (ap (λ x. x.id) (store_self h₁ a o₂)) (λ b. ground arith) v.bounded
  settled (some slots) p =
      let a = s.next in
      let o₁ : Object = record o { alive = true } in
      let h₁ = store s.heap a o₁ in
      let o₂ : Object = record (h₁ a) { id = s.id_counter + 1 } in
      new-IsValid s holders o₂ (store h₁ a o₂) slots o.users 1 v (store-store s.heap a o₁ o₂)
        (ap (λ x. x.users) (store_self s.heap a o₁)) few (omega arith)
        (ap (λ x. x.alive) (store_self s.heap a o₁) ∙ ground arith) refl p.1 p.0

  pub add-IsValid : IsValid ((add o s).1) (with_added o.users ((add o s).0) holders)
  unfolding add add_to_list new_slots numbered
  add-IsValid = settled (new_slots s.next s) (new_slots-NewSlots s.next s v.bounded)
