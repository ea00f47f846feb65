-- ===== src/AltServers/Kept.antt =====
-- What the checks of `isUsableForUplink` leave of the servers, and the list that they build up.
use dnbd.Base.{
  ℕ, zero, suc, ◌+◌, ◌≤◌, ◌≡◌, ◌≢◌, ◌⊎◌, refl, sym, ◌∙◌, subst, Bool, true, false, Option, none,
  some, List, [], ◌∷◌, ◌++◌, ltb, ◌==◌, Bool-cases, inl, inr, length, length-set, get_or,
  get_or-set_self, get_or-set_ne, set, All, All-append, arith,
}
use dnbd.Timing.Defs.{Ticks}
use dnbd.AltServers.Defs.{AltServer, AltLocal, no_server, server_bad_uplink_min, is_image_allowed}
use dnbd.AltServers.Lists.{
  Pool, draw, pass_global, server_of, set_server, check_local, local_fails, chance, check_global,
  is_excluded, is_usable,
}
use dnbd.AltServers.Uplinks.{Query}

-- No entry is in the list twice.
abbrev pub Distinct : List ℕ → Type 0
Distinct [] = Unit
Distinct (x ∷ xs) = All (λ y. y ≢ x) xs × Distinct xs

pub Distinct-snoc :
    (x : ℕ) (xs : List ℕ) → Distinct xs → All (λ y. y ≢ x) xs → Distinct (xs ++ (x ∷ []))
Distinct-snoc x [] d f = (tt, tt)
Distinct-snoc x (y ∷ xs) d f =
    (All-append (λ z. z ≢ y) xs (x ∷ []) d.0 ((λ e. f.0 (sym e)), tt), Distinct-snoc x xs d.1 f.1)

-- The list of servers is as long, and each has the flags that it had.
abbrev pub Keeps : Pool → Pool → Type 0
Keeps p p' =
    (length p'.servers ≡ length p.servers)
    × ((i : ℕ)
        → ((server_of p' i).name_spaces ≡ (server_of p i).name_spaces)
          × ((server_of p' i).is_private ≡ (server_of p i).is_private)
          × ((server_of p' i).is_client_only ≡ (server_of p i).is_client_only))

pub Keeps-trans : (p p' p'' : Pool) → Keeps p p' → Keeps p' p'' → Keeps p p''
Keeps-trans p p' p'' k l =
    (l.0 ∙ k.0, λ i. ((l.1 i).0 ∙ (k.1 i).0, (l.1 i).1 ∙ (k.1 i).1, (l.1 i).2 ∙ (k.1 i).2))

check_local-Keeps :
    (i : ℕ) (p : Pool) (ls : Option (List AltLocal)) → Keeps p (check_local i p ls).1
unfolding check_local
check_local-Keeps i p none = (refl, λ i. (refl, refl, refl))
check_local-Keeps i p (some ls) = (refl, λ i. (refl, refl, refl))

chance-Keeps : (fails : ℕ) (p : Pool) → Keeps p (chance fails p).1
unfolding chance draw
chance-Keeps fails p = elim (Bool-cases (ltb fails server_bad_uplink_min)) [
  | inl t ↦ rw t (refl, λ i. (refl, refl, refl))
  | inr f ↦ rw f (refl, λ i. (refl, refl, refl))
]

get_or-set_past {ℓ} :
    {A : Type ℓ} (xs : List A) (i : ℕ) (v d : A)
    → length xs ≤ i
    → get_or (set xs i v) i d ≡ get_or xs i d
get_or-set_past [] i v d h = refl
get_or-set_past (x ∷ xs) zero v d h = absurd (omega arith)
get_or-set_past (x ∷ xs) (suc i) v d h = get_or-set_past xs i v d (omega arith)

SameFlags : AltServer → AltServer → Type 0
SameFlags s t =
    (t.name_spaces ≡ s.name_spaces)
    × (t.is_private ≡ s.is_private)
    × (t.is_client_only ≡ s.is_client_only)

pass_global-SameFlags : (now : Ticks) (s : AltServer) → SameFlags s (pass_global now s).1
unfolding pass_global SameFlags
pass_global-SameFlags now s = ground arith

set_server-Keeps :
    (p : Pool) (i : ℕ) (s : AltServer) → SameFlags (server_of p i) s → Keeps p (set_server p i s)
unfolding set_server SameFlags
set_server-Keeps p i s same = (
  length-set p.servers i s,
  λ j. elim (Bool-cases (i == j)) [
    | inl t ↦
        subst (λ j. SameFlags (server_of p j) (get_or (set p.servers i s) j no_server))
          (ground arith) here
    | inr f ↦ rw (get_or-set_ne p.servers i j s no_server (ground arith)) (refl, refl, refl)
  ],
)
  where
    here : SameFlags (server_of p i) (get_or (set p.servers i s) i no_server)
    here = elim (Bool-cases (ltb i (length p.servers))) [
      | inl t ↦ rw (get_or-set_self p.servers i s no_server (ground arith)) same
      | inr f ↦ rw (get_or-set_past p.servers i s no_server (ground arith)) (refl, refl, refl)
    ]

check_global-Keeps : (now : Ticks) (i : ℕ) (p : Pool) → Keeps p (check_global now i p).1
unfolding check_global
check_global-Keeps now i p =
    let r = pass_global now (server_of p i) in
    let p' = set_server p i r.1 in
    let kept = set_server-Keeps p i r.1 (pass_global-SameFlags now (server_of p i)) in
    elim (Bool-cases r.0) [
      | inl t ↦ rw t (
          Keeps-trans p p' (chance (local_fails i p'.locals + r.1.fails) p').1 kept
            (chance-Keeps (local_fails i p'.locals + r.1.fails) p'))
      | inr f ↦ rw f kept
    ]

pub is_usable-Keeps : (b : Bool) (now : Ticks) (i : ℕ) (p : Pool) → Keeps p (is_usable b now i p).1
unfolding is_usable
is_usable-Keeps b now i p =
    let r = check_local i p p.locals in
    elim (Bool-cases (is_excluded b (server_of p i))) [
      | inl t ↦ rw t (refl, λ i. (refl, refl, refl))
      | inr f ↦ elim (Bool-cases r.0) [
        | inl u ↦
            rw (f, u)
              (Keeps-trans p r.1 (check_global now i r.1).1 (check_local-Keeps i p p.locals)
                (check_global-Keeps now i r.1))
        | inr v ↦ rw (f, v) (check_local-Keeps i p p.locals)
      ]
    ]

-- The server was found usable during the call, when only counters had changed.
abbrev pub IsUsable : Query → Pool → ℕ → Type 0
IsUsable q p i = (p' : Pool) × Keeps p p' × ((is_usable q.private_only q.now i p').0 ≡ true)

-- The server is the current one, or is allowed for the image, not excluded, and was found usable.
abbrev pub IsFit : Query → Pool → ℕ → Type 0
IsFit q p i =
    (c : ℕ)
    → q.current ≡ some c
    → (i ≡ c)
      ⊎ ((is_image_allowed (server_of p i) q.image ≡ true)
          × (is_excluded q.private_only (server_of p i) ≡ false)
          × IsUsable q p i)

pub is_image_allowed-Keeps :
    (p p' : Pool) (i : ℕ) (image : List ℕ)
    → Keeps p p'
    → is_image_allowed (server_of p' i) image ≡ is_image_allowed (server_of p i) image
unfolding is_image_allowed
is_image_allowed-Keeps p p' i image keep = rw (keep.1 i).0 refl

is_excluded-Keeps :
    (p p' : Pool) (i : ℕ) (b : Bool)
    → Keeps p p'
    → is_excluded b (server_of p' i) ≡ is_excluded b (server_of p i)
unfolding is_excluded
is_excluded-Keeps p p' i b keep = rw ((keep.1 i).1, (keep.1 i).2) refl

is_usable-not_excluded :
    (b : Bool) (now : Ticks) (i : ℕ) (p : Pool)
    → (is_usable b now i p).0 ≡ true
    → is_excluded b (server_of p i) ≡ false
unfolding is_usable
is_usable-not_excluded b now i p h = ground arith

pub is_usable-IsFit :
    (q : Query) (i : ℕ) (p p' : Pool)
    → Keeps p p'
    → is_image_allowed (server_of p' i) q.image ≡ true
    → (is_usable q.private_only q.now i p').0 ≡ true
    → IsFit q p i
is_usable-IsFit q i p p' keep allowed usable c e = inr (
  sym (is_image_allowed-Keeps p p' i q.image keep) ∙ allowed,
  sym (is_excluded-Keeps p p' i q.private_only keep)
      ∙ is_usable-not_excluded q.private_only q.now i p' usable,
  (p', keep, usable),
)

pub Keeps-self : (p : Pool) → Keeps p p
Keeps-self p = (refl, λ i. (refl, refl, refl))
