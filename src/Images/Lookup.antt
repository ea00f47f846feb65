-- ===== src/Images/Lookup.antt =====
-- Which image `image_get` finds.
use dnbd.Base.{
  ℕ, ◌≤◌, ◌<◌, ◌≡◌, refl, sym, ap, ◌∙◌, subst, true, false, ◌&&◌, Option, none, some, List, [], ◌∷◌,
  ◌==◌, Bool-cases, inl, inr, arith, ◌⊎◌,
}
use mathlib.Core.Bool.{true≢false}
use dnbd.Images.Defs.{Object, Images, same_name, is_newer, find_name, get, is_bad_name, hand_out}
use dnbd.Images.Valid.{places}
use dnbd.Images.Search.{Found, find_name-Found}

-- An image that serves a request for `revision`: that one, or any for 0.
abbrev pub Serves : (ℕ → Object) → List ℕ → ℕ → ℕ → Type 0
Serves h name revision a =
    (same_name (h a).name name ≡ true) × ((h a).rid ≡ revision ⊎ revision ≡ 0)

-- `r` is no worse than `b`: it is there, and is the revision asked for or at least as new.
abbrev pub NoWorse : (ℕ → Object) → ℕ → ℕ → Option ℕ → Type 0
NoWorse h revision b none = ⊥
NoWorse h revision b (some a) = (h a).rid ≡ revision ⊎ (h b).rid ≤ (h a).rid

abbrev AtLeast : (ℕ → Object) → ℕ → Option ℕ → Type 0
AtLeast h b none = ⊥
AtLeast h b (some a) = (h b).rid ≤ (h a).rid

AtLeast-NoWorse :
    (h : ℕ → Object) (revision b : ℕ) (r : Option ℕ) → AtLeast h b r → NoWorse h revision b r
AtLeast-NoWorse h revision b none w = absurd w
AtLeast-NoWorse h revision b (some a) w = inr w

newer-AtLeast :
    (h : ℕ → Object) (b c : ℕ) (candidate : Option ℕ)
    → is_newer h candidate c ≡ true
    → AtLeast h b candidate
    → (h b).rid ≤ (h c).rid
unfolding is_newer
newer-AtLeast h b c none n w = absurd w
newer-AtLeast h b c (some a) n w = ground arith

older-AtLeast :
    (h : ℕ → Object) (b : ℕ) (candidate : Option ℕ)
    → is_newer h candidate b ≡ false
    → AtLeast h b candidate
unfolding is_newer
older-AtLeast h b none n = ground arith
older-AtLeast h b (some a) n = ground arith

places-cons :
    (b c : ℕ) (slots : List (Option ℕ))
    → 0 < places b (some c ∷ slots)
    → (b ≡ c) ⊎ (0 < places b slots)
unfolding places
places-cons b c slots p = ground arith

-- The search never gets worse than its candidate or than a slot that it has passed.
find_name-NoWorse :
    (h : ℕ → Object) (name : List ℕ) (revision : ℕ) (slots : List (Option ℕ)) (candidate : Option ℕ)
    (b : ℕ)
    → Serves h name revision b
    → (0 < places b slots) ⊎ AtLeast h b candidate
    → NoWorse h revision b (find_name h name revision slots candidate)
unfolding find_name places
find_name-NoWorse h name revision [] candidate b serves (inl p) = absurd (omega arith)
find_name-NoWorse h name revision [] candidate b serves (inr w) =
    AtLeast-NoWorse h revision b candidate w
find_name-NoWorse h name revision (none ∷ slots) candidate b serves p =
    find_name-NoWorse h name revision slots candidate b serves p
find_name-NoWorse h name revision (some c ∷ slots) candidate b serves p =
    let next : (k : Option ℕ)
        → (0 < places b slots) ⊎ AtLeast h b k
        → NoWorse h revision b (find_name h name revision slots k) =
      λ k. find_name-NoWorse h name revision slots k b serves in
    let p' : (b ≡ c) ⊎ ((0 < places b slots) ⊎ AtLeast h b candidate) = elim p [
      | inl q ↦ elim (places-cons b c slots q) [ inl e ↦ inl e | inr l ↦ inr (inl l) ]
      | inr w ↦ inr (inr w)
    ] in
    elim (Bool-cases (same_name (h c).name name)) [
      | inl t ↦ elim (Bool-cases (revision == (h c).rid)) [
        | inl r ↦ rw (t, r) (inl (ground arith))
        | inr r ↦ elim (Bool-cases ((revision == 0) && is_newer h candidate c)) [
          | inl n ↦
              rw (t, r, n)
                (next (some c) (elim p' [
                  | inl e ↦ inr (ground (arith, ap (λ x. (h x).rid) e))
                  | inr (inl q) ↦ inl q
                  | inr (inr w) ↦ inr (newer-AtLeast h b c candidate (ground arith) w)
                ]))
          | inr n ↦
              rw (t, r, n)
                (next candidate (elim p' [
                  | inl e ↦ inr (
                      older-AtLeast h b candidate (
                        subst (λ x. is_newer h candidate x ≡ false) (sym e)
                          (ground (arith, serves.1, r, n, ap (λ x. (h x).rid) e))))
                  | inr q ↦ q
                ]))
        ]
      ]
      | inr f ↦ rw f (
          next candidate (elim p' [
            | inl e ↦
                absurd (true≢false (sym serves.0 ∙ (ap (λ x. same_name (h x).name name) e ∙ f)))
            | inr q ↦ q
          ]))
    ]

find_name-Serves :
    (h : ℕ → Object) (name : List ℕ) (revision : ℕ) (slots : List (Option ℕ)) (candidate : Option ℕ)
    → Found (Serves h name revision) candidate
    → Found (Serves h name revision) (find_name h name revision slots candidate)
unfolding find_name
find_name-Serves h name revision [] candidate c = c
find_name-Serves h name revision (none ∷ slots) candidate c =
    find_name-Serves h name revision slots candidate c
find_name-Serves h name revision (some b ∷ slots) candidate c =
    let next : (k : Option ℕ)
        → Found (Serves h name revision) k
        → Found (Serves h name revision) (find_name h name revision slots k) =
      λ k. find_name-Serves h name revision slots k in
    elim (Bool-cases (same_name (h b).name name)) [
      | inl t ↦ elim (Bool-cases (revision == (h b).rid)) [
        | inl r ↦ rw (t, r) (t, inl (ground arith))
        | inr r ↦ elim (Bool-cases ((revision == 0) && is_newer h candidate b)) [
          | inl n ↦ rw (t, r, n) (next (some b) (t, inr (ground arith)))
          | inr n ↦ rw (t, r, n) (next candidate c)
        ]
      ]
      | inr f ↦ rw f (next candidate c)
    ]

hand_out-fst : (s : Images) (r : Option ℕ) → (hand_out s r).0 ≡ r
unfolding hand_out
hand_out-fst s none = refl
hand_out-fst s (some a) = refl

Found-both {ℓ ℓ'} :
    (P : ℕ → Type ℓ) (Q : ℕ → Type ℓ') (r : Option ℕ)
    → Found P r
    → Found Q r
    → Found (λ a. P a × Q a) r
Found-both P Q none p q = tt
Found-both P Q (some a) p q = (p, q)

-- For a name that is neither empty nor begins or ends with a slash, what image_get finds is in the list,
-- has the name, and is the revision asked for or, for revision 0, any; and it finds an image if one
-- that serves the request is listed, for revision 0 a newest one or one of revision 0.
pub get_lem :
    (name : List ℕ) (revision : ℕ) (s : Images)
    → is_bad_name name ≡ false
    → Found (λ a. (0 < places a s.slots) × Serves s.heap name revision a) ((get name revision s).0)
      × ((b : ℕ)
          → 0 < places b s.slots
          → Serves s.heap name revision b
          → NoWorse s.heap revision b ((get name revision s).0))
unfolding get
get_lem name revision s good =
    let r = find_name s.heap name revision s.slots none in
    rw (good, hand_out-fst s r)
      (
        Found-both (λ a. 0 < places a s.slots) (Serves s.heap name revision) r
            (find_name-Found (λ a. 0 < places a s.slots) s.heap name revision s.slots none
              (λ a p. p) tt)
            (find_name-Serves s.heap name revision s.slots none tt),
        λ b p serves. find_name-NoWorse s.heap name revision s.slots none b serves (inl p),
      )
