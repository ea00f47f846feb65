-- ===== src/AltServers/Shortcut.antt =====
-- The shortcut of `altservers_getListForUplink`, when there are not more servers than asked for.
use dnbd.Base.{
  ℕ, zero, suc, ◌+◌, ◌≤◌, ◌<◌, ◌≡◌, ◌≢◌, refl, sym, ◌∙◌, subst, Bool, true, false, ◌&&◌, ◌||◌,
  Option, none, some, [], ◌∷◌, ◌++◌, if◌then◌else◌, Bool-cases, inl, inr, length, length-append,
  All, All-append, &&-true, All-map, arith,
}
use mathlib.Core.Option.{some-injective}
use dnbd.AltServers.Defs.{is_image_allowed}
use dnbd.AltServers.Lists.{Pool, server_of, is_usable}
use dnbd.AltServers.Uplinks.{Query, is_current, is_panic, Choice, every}
use dnbd.AltServers.Kept.{
  Distinct, IsFit, Keeps, Keeps-self, Keeps-trans, Distinct-snoc, is_usable-Keeps, is_usable-IsFit,
  is_image_allowed-Keeps,
}

abbrev pub IsAllowed : Query → Pool → ℕ → Type 0
IsAllowed q p i = is_image_allowed (server_of p i) q.image ≡ true

-- What holds of the shortcut's variables when it comes to entry `i`.
abbrev IsFirst : Query → Pool → ℕ → Choice → Type 0
IsFirst q p i c =
    All (λ j. (j < i) × IsFit q p j × IsAllowed q p j) c.chosen
    × Distinct c.chosen
    × (length c.chosen ≤ i)
    × Keeps p c.pool

skip-IsFirst :
    (q : Query) (p : Pool) (i : ℕ) (c : Choice) (p' : Pool)
    → Keeps c.pool p'
    → IsFirst q p i c
    → IsFirst q p (i + 1) (record c { pool = p' })
skip-IsFirst q p i c p' keep (each, distinct, size, keeps) = (
  All-map (λ j. (j < i) × IsFit q p j × IsAllowed q p j) c.chosen
      (λ j h. (omega (arith, h.0), h.1, h.2)) each,
  distinct,
  omega arith,
  Keeps-trans p c.pool p' keeps keep,
)

take-IsFirst :
    (q : Query) (p : Pool) (i : ℕ) (c : Choice) (p' : Pool)
    → Keeps c.pool p'
    → IsFit q p i
    → IsAllowed q p i
    → IsFirst q p i c
    → IsFirst q p (i + 1) (record c { chosen = c.chosen ++ (i ∷ []); pool = p' })
take-IsFirst q p i c p' keep offered allowed (each, distinct, size, keeps) = (
  All-append (λ j. (j < i + 1) × IsFit q p j × IsAllowed q p j) c.chosen (i ∷ [])
      (All-map (λ j. (j < i) × IsFit q p j × IsAllowed q p j) c.chosen
        (λ j h. (omega (arith, h.0), h.1, h.2)) each)
      ((omega arith, offered, allowed), tt),
  Distinct-snoc i c.chosen distinct (
      All-map (λ j. (j < i) × IsFit q p j × IsAllowed q p j) c.chosen (λ j h e. omega (arith, h.0))
        each),
  omega (arith, length-append c.chosen (i ∷ [])),
  Keeps-trans p c.pool p' keeps keep,
)

-- The server is not tested: there is no connection, or it is the current one.
untested-IsFit :
    (q : Query) (p : Pool) (i : ℕ) (current : Option ℕ)
    → q.current ≡ current
    → (is_panic current || is_current current i) ≡ true
    → IsFit q p i
unfolding is_panic is_current
untested-IsFit q p i none e h c g = absurd (none_ne_some (sym e ∙ g))
  where
    none_ne_some : {x : ℕ} → none ≢ some x
    none_ne_some z = ground arith
untested-IsFit q p i (some j) e h c g = inl (ground (arith, some-injective j c (sym e ∙ g)))

enter-IsFirst :
    (q : Query) (p : Pool) (i : ℕ) (c : Choice) (tested : Bool × Pool)
    → Keeps c.pool tested.1
    → (tested.0 ≡ true → is_image_allowed (server_of tested.1 i) q.image ≡ true → IsFit q p i)
    → IsFirst q p i c
    → IsFirst q p (i + 1) (
        if tested.0 && is_image_allowed (server_of tested.1 i) q.image
        then record c { chosen = c.chosen ++ (i ∷ []); pool = tested.1 }
        else record c { pool = tested.1 })
enter-IsFirst q p i c tested keep offered h =
    elim (Bool-cases (tested.0 && is_image_allowed (server_of tested.1 i) q.image)) [
      | inl a ↦
          let both = &&-true tested.0 (is_image_allowed (server_of tested.1 i) q.image) a in
          let same =
            is_image_allowed-Keeps p tested.1 i q.image (Keeps-trans p c.pool tested.1 h.3 keep) in
          rw a (take-IsFirst q p i c tested.1 keep (offered both.0 both.1) (sym same ∙ both.1) h)
      | inr d ↦ rw d (skip-IsFirst q p i c tested.1 keep h)
    ]

pub every-IsFirst :
    (q : Query) (p : Pool) (n i m : ℕ) (c : Choice)
    → i + n ≡ m
    → IsFirst q p i c
    → IsFirst q p m (every n i q c)
unfolding every
every-IsFirst q p zero i m c e h = subst (λ m. IsFirst q p m c) (omega arith) h
every-IsFirst q p (suc n) i m c e h =
    every-IsFirst q p n (i + 1) m _ (omega arith)
      (go (is_panic q.current || is_current q.current i) refl)
  where
    r : Bool × Pool
    r = is_usable q.private_only q.now i c.pool

    kept : Keeps c.pool r.1
    kept = is_usable-Keeps q.private_only q.now i c.pool

    go :
        (b : Bool)
        → (is_panic q.current || is_current q.current i) ≡ b
        → let tested : Bool × Pool = if b then (true, c.pool) else r in
          IsFirst q p (i + 1) (
            if tested.0 && is_image_allowed (server_of tested.1 i) q.image
            then record c { chosen = c.chosen ++ (i ∷ []); pool = tested.1 }
            else record c { pool = tested.1 })
    go true t =
        enter-IsFirst q p i c (true, c.pool) (Keeps-self c.pool)
          (λ u a. untested-IsFit q p i q.current refl t) h
    go false t =
        enter-IsFirst q p i c r kept
          (λ u a.
            is_usable-IsFit q i p c.pool h.3
              (sym (is_image_allowed-Keeps c.pool r.1 i q.image kept) ∙ a) u)
          h
