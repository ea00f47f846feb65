-- ===== src/AltServers/RandomChoice.antt =====
-- The random choice of `altservers_getListForUplink`, when there are more servers than asked for.
use dnbd.Base.{
  ℕ, zero, suc, ◌*◌, ◌≤◌, ◌<◌, ◌≡◌, ◌≢◌, refl, sym, ◌∙◌, subst, Option, none, some, [], ◌∷◌, leb,
  ◌==◌, if◌then◌else◌, Bool-cases, inl, inr, length, length-append, length-set, length-replicate,
  get_or-replicate, get_or, get_or-set_self, get_or-set_ne, set, replicate, All, All-append,
  All-map, arith,
}
use mathlib.Core.Option.{some-injective}
use dnbd.AltServers.Defs.{server_max_alts, is_image_allowed}
use dnbd.AltServers.Lists.{Pool, draw, server_of, is_usable}
use dnbd.AltServers.Uplinks.{
  Query, is_panic, Choice, choose, mark, consider, consider_any, pick_entry, tries, panic_tries,
  with_current, randomize,
}
use dnbd.AltServers.Kept.{
  Distinct, IsFit, Keeps, Keeps-self, Keeps-trans, Distinct-snoc, is_usable-Keeps, is_usable-IsFit,
}

-- What holds of the variables of the random choice.
abbrev pub IsChoice : Query → Pool → Choice → Type 0
IsChoice q p c =
    All (λ i. (i < length p.servers) × (get_or c.marks i 0 ≡ 2) × IsFit q p i) c.chosen
    × Distinct c.chosen
    × (length c.marks ≡ server_max_alts)
    × (length c.chosen ≤ q.size)
    × Keeps p c.pool

choose-IsChoice :
    (q : Query) (p : Pool) (i : ℕ) (c : Choice)
    → length p.servers ≤ server_max_alts
    → i < length p.servers
    → IsFit q p i
    → get_or c.marks i 0 ≢ 2
    → length c.chosen < q.size
    → IsChoice q p c
    → IsChoice q p (choose i c)
unfolding choose
choose-IsChoice q p i c few inside offered fresh room (each, distinct, marks, size, keeps) = (
  All-append (λ j. (j < length p.servers) × (get_or (set c.marks i 2) j 0 ≡ 2) × IsFit q p j)
      c.chosen (i ∷ []) (All-map _ c.chosen (λ j h. (h.0, later j h.1, h.2)) each)
      ((inside, get_or-set_self c.marks i 2 0 (omega arith), offered), tt),
  Distinct-snoc i c.chosen distinct
      (All-map _ c.chosen (λ j h e. fresh (subst (λ j. get_or c.marks j 0 ≡ 2) e h.1)) each),
  length-set c.marks i 2 ∙ marks,
  omega (arith, length-append c.chosen (i ∷ [])),
  keeps,
)
  where
    later : (j : ℕ) → get_or c.marks j 0 ≡ 2 → get_or (set c.marks i 2) j 0 ≡ 2
    later j h = elim (Bool-cases (i == j)) [
      | inl t ↦
          subst (λ j. get_or (set c.marks i 2) j 0 ≡ 2) (ground arith)
            (get_or-set_self c.marks i 2 0 (omega arith))
      | inr f ↦ get_or-set_ne c.marks i j 2 0 (ground arith) ∙ h
    ]

mark-IsChoice :
    (q : Query) (p : Pool) (i m : ℕ) (c : Choice)
    → get_or c.marks i 0 ≢ 2
    → IsChoice q p c
    → IsChoice q p (mark i m c)
unfolding mark
mark-IsChoice q p i m c fresh (each, distinct, marks, size, keeps) = (
  All-map (λ j. (j < length p.servers) × (get_or c.marks j 0 ≡ 2) × IsFit q p j) c.chosen
      (λ j h. (
        h.0,
        get_or-set_ne c.marks i j m 0 (λ e. fresh (subst (λ j. get_or c.marks j 0 ≡ 2) (sym e) h.1))
            ∙ h.1,
        h.2,
      ))
      each,
  distinct,
  length-set c.marks i m ∙ marks,
  size,
  keeps,
)

pool-IsChoice :
    (q : Query) (p p' : Pool) (c : Choice)
    → Keeps c.pool p'
    → IsChoice q p c
    → IsChoice q p (record c { pool = p' })
pool-IsChoice q p p' c keep (each, distinct, marks, size, keeps) =
    (each, distinct, marks, size, Keeps-trans p c.pool p' keeps keep)

module _ (q : Query) (p : Pool) (few : length p.servers ≤ server_max_alts) where
  consider-IsChoice :
      (i : ℕ) (c : Choice)
      → i < length p.servers
      → length c.chosen < q.size
      → IsChoice q p c
      → IsChoice q p (consider q i c)
  unfolding consider
  consider-IsChoice i c inside room h =
      let r = is_usable q.private_only q.now i c.pool in
      let h' = pool-IsChoice q p r.1 c (is_usable-Keeps q.private_only q.now i c.pool) h in
      elim (Bool-cases (get_or c.marks i 0 == 0)) [
        | inr f ↦ rw f h
        | inl t ↦ elim (Bool-cases (is_image_allowed (server_of c.pool i) q.image)) [
          | inr f ↦ rw (t, f) (mark-IsChoice q p i 2 c (ground arith) h)
          | inl a ↦ elim (Bool-cases r.0) [
            | inl u ↦
                rw (t, a, u)
                  (choose-IsChoice q p i (record c { pool = r.1 }) few inside
                    (is_usable-IsFit q i p c.pool h.4 a u) (ground arith) room h')
            | inr v ↦
                rw (t, a, v) (mark-IsChoice q p i 1 (record c { pool = r.1 }) (ground arith) h')
          ]
        ]
      ]

  consider_any-IsChoice :
      (i : ℕ) (c : Choice)
      → q.current ≡ none
      → i < length p.servers
      → length c.chosen < q.size
      → IsChoice q p c
      → IsChoice q p (consider_any i c)
  unfolding consider_any
  consider_any-IsChoice i c lost inside room h = elim (Bool-cases (get_or c.marks i 0 == 2)) [
    | inl t ↦ rw t h
    | inr f ↦ rw f (
        choose-IsChoice q p i c few inside (λ c e. absurd (none_ne (sym lost ∙ e))) (ground arith)
          room h)
  ]
    where
      none_ne : {x : ℕ} → none ≢ some x
      none_ne e = ground arith

  pick-IsChoice : (c : Choice) → IsChoice q p c → IsChoice q p (pick_entry c).1
  unfolding pick_entry draw
  pick-IsChoice c h = (h.0, h.1, h.2, h.3, h.4)

  pick-lt :
      (c : Choice) → 0 < length p.servers → IsChoice q p c → (pick_entry c).0 < length p.servers
  unfolding pick_entry draw
  pick-lt c some_server h = omega (arith, h.4.0)

  pick-room : (c : Choice) → length (pick_entry c).1.chosen ≡ length c.chosen
  unfolding pick_entry draw
  pick-room c = refl

  module _ (some_server : 0 < length p.servers) where
    tries-IsChoice : (t : ℕ) (c : Choice) → IsChoice q p c → IsChoice q p (tries t q c)
    unfolding tries
    tries-IsChoice zero c h = h
    tries-IsChoice (suc t) c h =
        let r = pick_entry c in
        elim (Bool-cases (leb q.size (length c.chosen))) [
          | inl full ↦ rw full h
          | inr room ↦ rw room (
              tries-IsChoice t (consider q r.0 r.1) (
                consider-IsChoice r.0 r.1 (pick-lt c some_server h) (ground (arith, pick-room c))
                  (pick-IsChoice c h)))
        ]

    panic_tries-IsChoice :
        (t : ℕ) (c : Choice) → q.current ≡ none → IsChoice q p c → IsChoice q p (panic_tries t q c)
    unfolding panic_tries
    panic_tries-IsChoice zero c lost h = h
    panic_tries-IsChoice (suc t) c lost h =
        let r = pick_entry c in
        elim (Bool-cases (leb q.size (length c.chosen))) [
          | inl full ↦ rw full h
          | inr room ↦ rw room (
              panic_tries-IsChoice t (consider_any r.0 r.1) lost (
                consider_any-IsChoice r.0 r.1 lost (pick-lt c some_server h)
                  (ground (arith, pick-room c)) (pick-IsChoice c h)))
        ]

-- The state before the random choice.
abbrev pub choice_start : Pool → Choice
choice_start p = record { chosen = []; marks = replicate server_max_alts 0; pool = p }

start-IsChoice : (q : Query) (p : Pool) → IsChoice q p (choice_start p)
start-IsChoice q p = (tt, tt, length-replicate {A = ℕ} server_max_alts 0, omega arith, Keeps-self p)

two_ne_zero : ◌≢◌ {A = ℕ} 2 0
two_ne_zero e = omega arith

with_current-IsChoice :
    (q : Query) (p : Pool) (current : Option ℕ)
    → q.current ≡ current
    → length p.servers ≤ server_max_alts
    → 0 < q.size
    → ((c : ℕ) → current ≡ some c → c < length p.servers)
    → IsChoice q p (with_current current (choice_start p))
unfolding with_current
with_current-IsChoice q p none e few room inside = start-IsChoice q p
with_current-IsChoice q p (some i) e few room inside =
    choose-IsChoice q p i (choice_start p) few (inside i refl)
      (λ c g. inl (some-injective i c (sym e ∙ g)))
      (λ z.
        two_ne_zero
          (sym z ∙ get_or-replicate server_max_alts i 0 0 (omega (arith, inside i refl, few))))
      room (start-IsChoice q p)

pub randomize-IsChoice :
    (q : Query) (p : Pool)
    → length p.servers ≤ server_max_alts
    → 0 < q.size
    → 0 < length p.servers
    → ((c : ℕ) → q.current ≡ some c → c < length p.servers)
    → IsChoice q p (randomize q (choice_start p))
unfolding randomize is_panic
randomize-IsChoice q p few room some_server inside =
    let h =
      tries-IsChoice q p few some_server (q.size * 10) (with_current q.current (choice_start p))
        (with_current-IsChoice q p q.current refl few room inside) in
    go q.current _ refl h
  where
    go :
        (current : Option ℕ) (c : Choice)
        → q.current ≡ current
        → IsChoice q p c
        → IsChoice q p (if is_panic current then panic_tries (q.size * 10) q c else c)
    go none c e h = panic_tries-IsChoice q p few some_server (q.size * 10) c e h
    go (some i) c e h = h
