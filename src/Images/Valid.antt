-- ===== src/Images/Valid.antt =====
-- What holds of the image list between two calls: how an image's counter, its place in the list and
-- its memory hang together.
use dnbd.Base.{
  ℕ, ◌+◌, ◌-◌, ◌≤◌, ◌<◌, ◌≡◌, ◌≢◌, refl, sym, ◌∙◌, subst, false, Option, none, some, List, [], ◌∷◌,
  ltb, ◌==◌, if◌then◌else◌, Bool-cases, inl, inr, length, arith, ◌⊎◌,
}
use dnbd.Images.Defs.{Object, Images, store, is_listed, keep_slot, vacate}

-- In how many slots an image is, and how often a list of holders names it.
unfoldable pub places : ℕ → List (Option ℕ) → ℕ
places a [] = 0
places a (none ∷ slots) = places a slots
places a (some b ∷ slots) = (if b == a then 1 else 0) + places a slots

unfoldable pub count : ℕ → List ℕ → ℕ
count a [] = 0
count a (b ∷ bs) = (if b == a then 1 else 0) + count a bs

-- A holder of `a` less.
unfoldable pub drop_one : ℕ → List ℕ → List ℕ
drop_one a [] = []
drop_one a (b ∷ bs) = if b == a then bs else b ∷ drop_one a bs

-- Of an image that is in `listed` slots and has `held` holders.
pub record ObjectIsValid (id_counter : ℕ) (o : Object) (listed held : ℕ) : Type 0 where
  pub counted : o.users ≡ held
  pub living : o.alive ≡ ltb 0 (listed + held)
  pub once : listed ≤ 1
  pub numbered : listed ≡ 0 ⊎ o.id ≤ id_counter

-- `holders` names an image once for each call that handed it out and was not matched by a release.
pub record IsValid (s : Images) (holders : List ℕ) : Type 0 where
  pub objects : (a : ℕ) → ObjectIsValid s.id_counter (s.heap a) (places a s.slots) (count a holders)
  pub unused : (a : ℕ) → s.next ≤ a → (s.heap a).alive ≡ false
  pub unique :
      (a b : ℕ)
      → 0 < places a s.slots
      → 0 < places b s.slots
      → (s.heap a).id ≡ (s.heap b).id
      → a ≡ b
  pub bounded : length s.slots ≤ s.max_images

pub is_listed-places :
    (a : ℕ) (slots : List (Option ℕ)) → is_listed a slots ≡ ltb 0 (places a slots)
unfolding is_listed places
is_listed-places a [] = refl
is_listed-places a (none ∷ slots) = is_listed-places a slots
is_listed-places a (some b ∷ slots) = ground (arith, is_listed-places a slots)

pub places-keep_slot :
    (a : ℕ) (x : Option ℕ) (slots : List (Option ℕ))
    → places a (keep_slot x slots) ≡ places a (x ∷ slots)
unfolding keep_slot places
places-keep_slot a none [] = refl
places-keep_slot a none (x ∷ slots) = refl
places-keep_slot a (some b) slots = refl

pub length-keep_slot :
    (x : Option ℕ) (slots : List (Option ℕ)) → length (keep_slot x slots) ≤ length slots + 1
unfolding keep_slot
length-keep_slot none [] = omega arith
length-keep_slot none (x ∷ slots) = omega arith
length-keep_slot (some a) slots = omega arith

pub places-vacate :
    (a b : ℕ) (slots : List (Option ℕ))
    → places b (vacate a slots) ≡ (if b == a then 0 else places b slots)
unfolding vacate places
places-vacate a b [] = ground arith
places-vacate a b (none ∷ slots) =
    places-keep_slot b none (vacate a slots) ∙ places-vacate a b slots
places-vacate a b (some c ∷ slots) =
    let rest = places-vacate a b slots in
    elim (Bool-cases (c == a)) [
      | inl e ↦ rw e (places-keep_slot b none (vacate a slots) ∙ ground (arith, rest))
      | inr n ↦ rw n (places-keep_slot b (some c) (vacate a slots) ∙ ground (arith, rest))
    ]

pub length-vacate : (a : ℕ) (slots : List (Option ℕ)) → length (vacate a slots) ≤ length slots
unfolding vacate
length-vacate a [] = omega arith
length-vacate a (none ∷ slots) =
    omega (arith, length-keep_slot none (vacate a slots), length-vacate a slots)
length-vacate a (some b ∷ slots) = omega (
  arith,
  length-keep_slot (if b == a then none else some b) (vacate a slots),
  length-vacate a slots,
)

-- Between two holders and one: what a release takes away.
pub count-drop_one :
    (a b : ℕ) (holders : List ℕ)
    → 0 < count a holders
    → count b (drop_one a holders) ≡ count b holders - (if b == a then 1 else 0)
unfolding count drop_one
count-drop_one a b [] h = absurd (omega arith)
count-drop_one a b (c ∷ cs) h = elim (Bool-cases (c == a)) [
  | inl e ↦ ground arith
  | inr n ↦ let rest = count-drop_one a b cs (ground arith) in ground (arith, rest)
]

pub count_other : (a b : ℕ) (holders : List ℕ) → b ≢ a → count b (a ∷ holders) ≡ count b holders
unfolding count
count_other a b holders n = ground arith

pub count_self : (a : ℕ) (holders : List ℕ) → count a (a ∷ holders) ≡ count a holders + 1
unfolding count
count_self a holders = ground arith

-- What holds of the new object at `a` and of the old ones at the other addresses holds of all.
pub store-elim {ℓ} :
    (P : ℕ → Object → Type ℓ) (h : ℕ → Object) (a : ℕ) (o : Object)
    → P a o
    → ((b : ℕ) → b ≢ a → P b (h b))
    → (b : ℕ) → P b (store h a o b)
unfolding store
store-elim P h a o here there b = elim (Bool-cases (b == a)) [
  | inl e ↦ let same : b ≡ a = ground arith in rw e (subst (λ c. P c o) (sym same) here)
  | inr n ↦ rw n (there b (ground arith))
]

-- One object changes, and with it its places and its holders; no object gains a place.
pub store-IsValid :
    (s : Images) (holders : List ℕ) (a : ℕ) (o : Object) (slots : List (Option ℕ))
    (holders' : List ℕ)
    → IsValid s holders
    → o.id ≡ (s.heap a).id
    → (s.next ≤ a → o.alive ≡ false)
    → ObjectIsValid s.id_counter o (places a slots) (count a holders')
    → ((b : ℕ) → places b slots ≤ places b s.slots)
    → ((b : ℕ) → b ≢ a → (places b slots ≡ places b s.slots) × (count b holders' ≡ count b holders))
    → length slots ≤ length s.slots
    → IsValid (record s { slots = slots; heap = store s.heap a o }) holders'
store-IsValid s holders a o slots holders' v same fresh valid fewer others short =
    let id_of = store-elim (λ b x. x.id ≡ (s.heap b).id) s.heap a o same (λ b n. refl) in
    record {
      objects =
          store-elim (λ b x. ObjectIsValid s.id_counter x (places b slots) (count b holders'))
            s.heap a o valid
            (λ b n.
              subst (λ k. ObjectIsValid s.id_counter (s.heap b) k (count b holders'))
                (sym (others b n).0)
                (subst (λ k. ObjectIsValid s.id_counter (s.heap b) (places b s.slots) k)
                  (sym (others b n).1) (v.objects b)));
      unused =
          store-elim (λ b x. s.next ≤ b → x.alive ≡ false) s.heap a o fresh (λ b n. v.unused b);
      unique = λ b c pb pc e.
          v.unique b c (omega (arith, fewer b)) (omega (arith, fewer c))
            (sym (id_of b) ∙ (e ∙ id_of c));
      bounded = omega (arith, v.bounded);
    }
