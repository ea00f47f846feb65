-- ===== src/Session/Listing.antt =====
-- The list of clients has just those that were added and not removed.
use dnbd.Base.{
  ℕ, zero, suc, ◌+◌, ◌-◌, ◌≤◌, ◌<◌, ◌≡◌, refl, sym, ap, true, false, ◌&&◌, not, Option, none, some,
  [], ◌∷◌, ◌++◌, ltb, leb, ◌==◌, if◌then◌else◌, length, length-append, length-set, get_or, set,
  take, arith, Bool-cases, inl, inr, &&-true, get_or-set_self,
}
use dnbd.Session.Roster.{
  Roster, is_null, free_index, enlist, add_to_roster, is_client, last_index, trim, vacate_slot,
  remove_from_roster,
}

-- How often a client is in the list.
abbrev pub times : ℕ → Roster → ℕ
times x [] = 0
times x (c ∷ cs) = (if is_client x c then 1 else 0) + times x cs

-- How many slots are taken.
abbrev pub taken_slots : Roster → ℕ
taken_slots [] = 0
taken_slots (c ∷ cs) = (if is_null c then 0 else 1) + taken_slots cs

times-set :
    (x : ℕ) (cs : Roster) (i : ℕ) (c : Option ℕ)
    → i < length cs
    → times x (set cs i c) + (if is_client x (get_or cs i none) then 1 else 0)
      ≡ times x cs + (if is_client x c then 1 else 0)
times-set x [] i c h = absurd (omega arith)
times-set x (y ∷ cs) zero c h = omega arith
times-set x (y ∷ cs) (suc i) c h = omega (arith, times-set x cs i c (omega arith))

times-append : (x : ℕ) (cs ds : Roster) → times x (cs ++ ds) ≡ times x cs + times x ds
times-append x [] ds = omega arith
times-append x (c ∷ cs) ds = omega (arith, times-append x cs ds)

-- What is NULL does not count.
times-take :
    (x : ℕ) (cs : Roster) (k : ℕ)
    → ((j : ℕ) → k ≤ j → is_null (get_or cs j none) ≡ true)
    → times x (take k cs) ≡ times x cs
times-take x cs zero h = sym (empty cs (λ j. h j (omega arith)))
  where
    null_client : (c : Option ℕ) → is_null c ≡ true → is_client x c ≡ false
    null_client none e = refl
    null_client (some c) e = absurd (ground arith)

    empty : (cs : Roster) → ((j : ℕ) → is_null (get_or cs j none) ≡ true) → times x cs ≡ 0
    empty [] h = refl
    empty (c ∷ cs) h = rw (null_client c (h 0)) (omega (arith, empty cs (λ j. h (suc j))))
times-take x [] (suc k) h = refl
times-take x (c ∷ cs) (suc k) h =
    ap (λ n. (if is_client x c then 1 else 0) + n)
      (times-take x cs k (λ j l. h (suc j) (omega arith)))

-- Where there is a free slot; and if there is none, all are taken.
abbrev Free : Roster → ℕ → Option ℕ → Type 0
Free cs i none = taken_slots cs ≡ length cs
Free cs i (some k) = (k < i + length cs) × (i ≤ k) × (is_null (get_or cs (k - i) none) ≡ true)

free_index-Free : (cs : Roster) (i : ℕ) → Free cs i (free_index cs i)
unfolding free_index
free_index-Free [] i = refl
free_index-Free (none ∷ cs) i =
    let first : i - i ≡ 0 = omega arith in (omega arith, omega arith, rw first refl)
free_index-Free (some c ∷ cs) i = go (free_index cs (i + 1)) (free_index-Free cs (i + 1))
  where
    go : (o : Option ℕ) → Free cs (i + 1) o → Free (some c ∷ cs) i o
    go none h = omega (arith, h)
    go (some k) h =
        let next : k - i ≡ suc (k - (i + 1)) = omega (arith, h) in
        (omega (arith, h), omega (arith, h), rw next (h.2))

-- What adding a client to the list comes to.
abbrev pub Enlisted : ℕ → ℕ → Roster → Option Roster → Type 0
Enlisted most client cs none = (taken_slots cs ≡ length cs) × (most ≤ length cs)
Enlisted most client cs (some cs') =
    ((x : ℕ) → times x cs' ≡ times x cs + (if client == x then 1 else 0))
    × (length cs ≤ most → length cs' ≤ most)

is_null_client : (c : Option ℕ) (x : ℕ) → is_null c ≡ true → is_client x c ≡ false
is_null_client none x e = refl
is_null_client (some c) x e = absurd (ground arith)

-- addToList: a client is refused only if all slots are taken and there are as many as `_maxClients`;
-- otherwise the list has this client once more and all others as before, and stays within the bound.
pub add_to_roster-Enlisted :
    (most client : ℕ) (cs : Roster) → Enlisted most client cs (add_to_roster most client cs)
unfolding add_to_roster enlist
add_to_roster-Enlisted most client cs = go (free_index cs 0) (free_index-Free cs 0)
  where
    go : (o : Option ℕ) → Free cs 0 o → Enlisted most client cs (enlist most client cs o)
    go none full = elim (Bool-cases (leb most (length cs))) [
      | inl t ↦ rw t (full, ground arith)
      | inr f ↦ rw f (
        λ x. omega (arith, times-append x cs (some client ∷ [])),
        λ h. ground (arith, length-append cs (some client ∷ [])),
      )
    ]
    go (some k) h =
        let same : k - 0 ≡ k = omega arith in
        let here : is_null (get_or cs k none) ≡ true = rw same at h.2 in
        (
          λ x.
              let old = is_null_client (get_or cs k none) x here in
              omega (arith, rw old at (times-set x cs k (some client) (omega (arith, h.0)))),
          λ l. omega (arith, length-set cs k (some client)),
        )

-- Where the search from the end stops.
abbrev Last : ℕ → ℕ → Roster → Option ℕ → Type 0
Last client n cs none = (j : ℕ) → j < n → is_client client (get_or cs j none) ≡ false
Last client n cs (some i) = (i < n) × (is_client client (get_or cs i none) ≡ true)

last_index-Last : (client n : ℕ) (cs : Roster) → Last client n cs (last_index client n cs)
unfolding last_index
last_index-Last client zero cs = λ j h. absurd (omega arith)
last_index-Last client (suc n) cs = elim (Bool-cases (is_client client (get_or cs n none))) [
  | inl t ↦ rw t (omega arith, t)
  | inr f ↦ rw f (go f (last_index client n cs) (last_index-Last client n cs))
]
  where
    go :
        is_client client (get_or cs n none) ≡ false
        → (o : Option ℕ) → Last client n cs o
        → Last client (suc n) cs o
    go miss none h = λ j l. elim (Bool-cases (j == n)) [
      | inl t ↦ let same : j ≡ n = ground arith in rw same miss
      | inr g ↦ h j (ground arith)
    ]
    go miss (some i) h = (omega (arith, h.0), h.1)

times_missing :
    (x : ℕ) (cs : Roster)
    → ((j : ℕ) → j < length cs → is_client x (get_or cs j none) ≡ false)
    → times x cs ≡ 0
times_missing x [] h = refl
times_missing x (c ∷ cs) h =
    rw (h 0 (omega arith)) (omega (arith, times_missing x cs (λ j l. h (suc j) (omega arith))))

-- Behind the index that the loop stops at, all slots are NULL, if they were so from `i` on.
trim-null :
    (i : ℕ) (cs : Roster)
    → ((j : ℕ) → i ≤ j → is_null (get_or cs j none) ≡ true)
    → (j : ℕ) → trim i cs + 1 ≤ j
    → is_null (get_or cs j none) ≡ true
unfolding trim
trim-null zero cs h = λ j l. h j (omega (arith, l))
trim-null (suc i) cs h = elim (Bool-cases (is_null (get_or cs i none) && ltb 0 i)) [
  | inl t ↦ rw t (
      trim-null i cs (λ j l. elim (Bool-cases (j == i)) [
        | inl e ↦
            let same : j ≡ i = ground arith in
            rw same (&&-true (is_null (get_or cs i none)) (ltb 0 i) t).0
        | inr f ↦ h j (ground arith)
      ]))
  | inr f ↦ rw f (λ j l. h j (omega arith))
]

past_roster : (cs : Roster) (j : ℕ) → length cs ≤ j → is_null (get_or cs j none) ≡ true
past_roster [] j h = refl
past_roster (c ∷ cs) zero h = absurd (omega arith)
past_roster (c ∷ cs) (suc j) h = past_roster cs j (omega arith)

length-take_le : (k : ℕ) (cs : Roster) → length (take k cs) ≤ length cs
length-take_le zero cs = omega arith
length-take_le (suc k) [] = omega arith
length-take_le (suc k) (c ∷ cs) = omega (arith, length-take_le k cs)

is_client_eq :
    (client x : ℕ) (c : Option ℕ) → is_client client c ≡ true → is_client x c ≡ (client == x)
is_client_eq client x none e = absurd (ground arith)
is_client_eq client x (some c) e = ground arith

-- removeFromList: a client that is listed is then listed once less, a client that is not changes nothing,
-- all others are listed as before, and the list does not get longer.
pub remove_from_roster_lem :
    (client : ℕ) (cs : Roster)
    → let cs' = remove_from_roster client cs in
      ((x : ℕ) → times x cs' ≡ times x cs - (if client == x then 1 else 0))
      × (length cs' ≤ length cs)
unfolding remove_from_roster vacate_slot
remove_from_roster_lem client cs =
    go (last_index client (length cs) cs) (last_index-Last client (length cs) cs)
  where
    vacated :
        (i x : ℕ)
        → i < length cs
        → is_client client (get_or cs i none) ≡ true
        → times x (set cs i none) + (if client == x then 1 else 0) ≡ times x cs
    vacated i x l h =
        omega (arith, rw (is_client_eq client x (get_or cs i none) h) at (times-set x cs i none l))

    behind :
        (i : ℕ)
        → i < length cs
        → i + 1 ≡ length cs
        → (j : ℕ) → i ≤ j
        → is_null (get_or (set cs i none) j none) ≡ true
    behind i l e j h = elim (Bool-cases (i == j)) [
      | inl t ↦
          let same : j ≡ i = ground arith in rw same (ap is_null (get_or-set_self cs i none none l))
      | inr f ↦ past_roster (set cs i none) j (ground (arith, length-set {A = Option ℕ} cs i none))
    ]

    go :
        (o : Option ℕ)
        → Last client (length cs) cs o
        → ((x : ℕ) → times x (vacate_slot cs o) ≡ times x cs - (if client == x then 1 else 0))
          × (length (vacate_slot cs o) ≤ length cs)
    go none h = (
      λ x. elim (Bool-cases (client == x)) [
        | inl t ↦
            let same : x ≡ client = ground arith in
            rw (t, same) (omega (arith, times_missing client cs h))
        | inr f ↦ rw f (omega arith)
      ],
      omega arith,
    )
    go (some i) h = elim (Bool-cases (not (i == 0) && (i + 1 == length cs))) [
      | inr f ↦ rw f (
        λ x. omega (arith, vacated i x h.0 h.1),
        omega (arith, length-set {A = Option ℕ} cs i none),
      )
      | inl t ↦
          let cs' = set cs i none in
          let last = &&-true (not (i == 0)) (i + 1 == length cs) t in
          let null = trim-null i cs' (behind i h.0 (ground (arith, last.1))) in
          rw t (
            λ x. omega (arith, times-take x cs' (trim i cs' + 1) null, vacated i x h.0 h.1),
            omega (arith, length-take_le (trim i cs' + 1) cs', length-set {A = Option ℕ} cs i none),
          )
    ]
