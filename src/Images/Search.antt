-- ===== src/Images/Search.antt =====
-- The three searches of the image list hand out listed images only.
use dnbd.Base.{
  ℕ, ◌<◌, ◌≡◌, ◌&&◌, Option, none, some, List, [], ◌∷◌, ◌==◌, Bool-cases, inl, inr, arith,
}
use dnbd.Images.Defs.{
  Object, Images, hand_out, find_id, by_id, lock, get, find_name, same_name, is_newer, is_bad_name,
  is_listed,
}
use dnbd.Images.Steps.{use_one-IsValid}
use dnbd.Images.Valid.{places, IsValid, is_listed-places}

-- The holders after a call that handed out `r`.
abbrev pub handed : Option ℕ → List ℕ → List ℕ
handed none holders = holders
handed (some a) holders = a ∷ holders

-- Of the address in an option, if it has one.
abbrev pub Found {ℓ} : (ℕ → Type ℓ) → Option ℕ → Type ℓ
Found P none = Unit
Found P (some a) = P a

pub Found-map {ℓ ℓ'} :
    {P : ℕ → Type ℓ} {Q : ℕ → Type ℓ'}
    → ((a : ℕ) → P a → Q a)
    → (r : Option ℕ) → Found P r
    → Found Q r
Found-map f none p = tt
Found-map f (some a) p = f a p

pub find_id-Found :
    (h : ℕ → Object) (image_id : ℕ) (slots : List (Option ℕ))
    → Found (λ a. (0 < places a slots) × ((h a).id ≡ image_id)) (find_id h image_id slots)
unfolding find_id places
find_id-Found h image_id [] = tt
find_id-Found h image_id (none ∷ slots) = find_id-Found h image_id slots
find_id-Found h image_id (some b ∷ slots) = elim (Bool-cases ((h b).id == image_id)) [
  | inl t ↦ rw t (ground arith, ground arith)
  | inr f ↦ rw f (
      Found-map (λ a p. (ground (arith, p.0), p.1)) (find_id h image_id slots)
        (find_id-Found h image_id slots))
]

-- What `find_name` returns was its candidate or is in one of the slots.
pub find_name-Found {ℓ} :
    (P : ℕ → Type ℓ) (h : ℕ → Object) (name : List ℕ) (revision : ℕ) (slots : List (Option ℕ))
    (candidate : Option ℕ)
    → ((a : ℕ) → 0 < places a slots → P a)
    → Found P candidate
    → Found P (find_name h name revision slots candidate)
unfolding find_name places
find_name-Found P h name revision [] candidate in_slot c = c
find_name-Found P h name revision (none ∷ slots) candidate in_slot c =
    find_name-Found P h name revision slots candidate in_slot c
find_name-Found P h name revision (some b ∷ slots) candidate in_slot c =
    let rest : (k : Option ℕ) → Found P k → Found P (find_name h name revision slots k) =
      λ k. find_name-Found P h name revision slots k (λ a p. in_slot a (ground (arith, p))) in
    let here = in_slot b (ground arith) in
    elim (Bool-cases (same_name (h b).name name)) [
      | inl t ↦ elim (Bool-cases (revision == (h b).rid)) [
        | inl r ↦ rw (t, r) here
        | inr r ↦ elim (Bool-cases ((revision == 0) && is_newer h candidate b)) [
          | inl n ↦ rw (t, r, n) (rest (some b) here)
          | inr n ↦ rw (t, r, n) (rest candidate c)
        ]
      ]
      | inr f ↦ rw f (rest candidate c)
    ]

pub hand_out-IsValid :
    (s : Images) (holders : List ℕ) (r : Option ℕ)
    → IsValid s holders
    → Found (λ a. 0 < places a s.slots) r
    → IsValid ((hand_out s r).1) (handed ((hand_out s r).0) holders)
unfolding hand_out
hand_out-IsValid s holders none v listed = v
hand_out-IsValid s holders (some a) v listed =
    use_one-IsValid s holders a v (ground (arith, (v.objects a).living, listed))

pub by_id-IsValid :
    (image_id : ℕ) (s : Images) (holders : List ℕ)
    → IsValid s holders
    → IsValid ((by_id image_id s).1) (handed ((by_id image_id s).0) holders)
unfolding by_id
by_id-IsValid image_id s holders v =
    hand_out-IsValid s holders (find_id s.heap image_id s.slots) v (
      Found-map (λ a p. p.0) (find_id s.heap image_id s.slots)
        (find_id-Found s.heap image_id s.slots))

pub lock-IsValid :
    (a : ℕ) (s : Images) (holders : List ℕ)
    → IsValid s holders
    → IsValid ((lock a s).1) (handed ((lock a s).0) holders)
unfolding lock
lock-IsValid a s holders v = elim (Bool-cases (is_listed a s.slots)) [
  | inl t ↦
      rw t (hand_out-IsValid s holders (some a) v (ground (arith, is_listed-places a s.slots)))
  | inr f ↦ rw f (hand_out-IsValid s holders none v tt)
]

pub get-IsValid :
    (name : List ℕ) (revision : ℕ) (s : Images) (holders : List ℕ)
    → IsValid s holders
    → IsValid ((get name revision s).1) (handed ((get name revision s).0) holders)
unfolding get
get-IsValid name revision s holders v = elim (Bool-cases (is_bad_name name)) [
  | inl t ↦ rw t v
  | inr f ↦ rw f (
      hand_out-IsValid s holders (find_name s.heap name revision s.slots none) v (
        find_name-Found (λ a. 0 < places a s.slots) s.heap name revision s.slots none (λ a p. p)
          tt))
]
