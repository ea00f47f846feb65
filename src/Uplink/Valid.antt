-- ===== src/Uplink/Valid.antt =====
-- The invariant of the request queue.
use dnbd.Base.{
  subst, ℕ, ◌%◌, ◌≤◌, ◌≡◌, ◌≢◌, refl, sym, ap, false, ◌&&◌, Option, none, some, List, [], ◌∷◌, ◌++◌,
  All, All-append, arith, length, leb, ◌==◌, Bool-cases, inl, inr,
}
pub use dnbd.Base.{All-left, All-right, All-map}
use dnbd.Uplink.Defs.{Client, Entry, Uplink, uplink_max_clients_per_request}
use dnbd.Uplink.Entries.{find_range, mark_unsent, pending}

-- The range of a client lies within the range that is asked for.
abbrev pub Covers : Entry → Client → Type 0
Covers e c = (e.from ≤ c.from) × (c.to ≤ e.to)

pub record EntryIsValid (e : Entry) : Type 0 where
  pub covered : All (Covers e) e.clients
  pub few : length e.clients ≤ uplink_max_clients_per_request
  pub from_aligned : e.from % 4096 ≡ 0
  pub to_aligned : e.to % 4096 ≡ 0
  pub ordered : e.from ≤ e.to

-- No other entry has the handle.
abbrev pub IsFresh : ℕ → List Entry → Type 0
IsFresh h es = All (λ e. e.handle ≢ h) es

abbrev pub Distinct : List Entry → Type 0
Distinct [] = Unit
Distinct (e ∷ es) = IsFresh e.handle es × Distinct es

pub record IsValid (u : Uplink) : Type 0 where
  pub counted : u.queue_len ≡ length u.queue
  pub entries : All EntryIsValid u.queue
  pub distinct : Distinct u.queue
  pub given : All (λ e. e.handle ≤ u.queue_id) u.queue

pub Distinct-insert :
    (xs ys : List Entry) (e : Entry)
    → Distinct (xs ++ ys)
    → IsFresh e.handle (xs ++ ys)
    → Distinct (xs ++ (e ∷ ys))
Distinct-insert [] ys e d f = (f, d)
Distinct-insert (x ∷ xs) ys e d f = (
  All-append _ xs (e ∷ ys) (All-left _ xs ys d.0) (λ q. f.0 (sym q), All-right _ xs ys d.0),
  Distinct-insert xs ys e d.1 f.1,
)

-- An entry with the handle of the one that it replaces.
pub Distinct-replace :
    (xs ys : List Entry) (e e' : Entry)
    → e'.handle ≡ e.handle
    → Distinct (xs ++ (e ∷ ys))
    → Distinct (xs ++ (e' ∷ ys))
Distinct-replace [] ys e e' q d = rw (← q) at d
Distinct-replace (x ∷ xs) ys e e' q d = (
  All-append _ xs (e' ∷ ys) (All-left _ xs (e ∷ ys) d.0)
      (let rest = All-right _ xs (e ∷ ys) d.0 in (rw q (rest.0), rest.1)),
  Distinct-replace xs ys e e' q d.1,
)

-- What `find_range` finds: the first entry that covers the range, or that there is none.
abbrev Holds : ℕ → ℕ → Entry → Type 0
Holds start end e = (e.from ≤ start) × (end ≤ e.to)

abbrev pub Found : List Entry → ℕ → ℕ → Option (List Entry × Entry × List Entry) → Type 0
Found q start end none = All (λ e. ¬ Holds start end e) q
Found q start end (some (before, e, behind)) =
    (q ≡ before ++ (e ∷ behind))
    × (e.from ≤ start)
    × (end ≤ e.to)
    × All (λ x. ¬ Holds start end x) before

Found-cons :
    (x : Entry) (q : List Entry) (start end : ℕ) (r : Option (List Entry × Entry × List Entry))
    → ¬ Holds start end x
    → Found q start end r
    → Found
        (x ∷ q)
        start
        end
        (elim r [ none ↦ none | some (before, e, behind) ↦ some (x ∷ before, e, behind) ])
Found-cons x q start end none miss f = (miss, f)
Found-cons x q start end (some (before, e, behind)) miss f = (ap (◌∷◌ x) f.0, f.1, f.2, (miss, f.3))

pub find_range-Found : (q : List Entry) (start end : ℕ) → Found q start end (find_range q start end)
unfolding find_range
find_range-Found [] start end = tt
find_range-Found (x ∷ q) start end = elim (Bool-cases (leb x.from start && leb end x.to)) [
  | inl hit ↦ rw hit (refl, ground arith, ground arith, tt)
  | inr miss ↦ rw miss (
      Found-cons x q start end (find_range q start end) (λ h. ground arith)
        (find_range-Found q start end))
]

pub pending-mark_unsent : (q : List Entry) (h : ℕ) → pending (mark_unsent q h) ≡ pending q
unfolding mark_unsent
pending-mark_unsent [] h = refl
pending-mark_unsent (e ∷ q) h = ground (arith, pending-mark_unsent q h)

pub length-mark_unsent : (q : List Entry) (h : ℕ) → length (mark_unsent q h) ≡ length q
unfolding mark_unsent
length-mark_unsent [] h = refl
length-mark_unsent (e ∷ q) h = ground (arith, length-mark_unsent q h)

-- What does not look at `sent` holds after `markRequestUnsent` as before.
pub All-mark_unsent {κ} :
    (P : Entry → Type κ) (q : List Entry) (h : ℕ)
    → ((e : Entry) → P e → P (record e { sent = false }))
    → All P q
    → All P (mark_unsent q h)
unfolding mark_unsent
All-mark_unsent P [] h keep a = a
All-mark_unsent P (e ∷ q) h keep a = elim (Bool-cases (e.handle == h)) [
  | inl t ↦ rw t (keep e a.0, a.1)
  | inr f ↦ rw f (a.0, All-mark_unsent P q h keep a.1)
]

pub mark_unsent-Distinct : (q : List Entry) (h : ℕ) → Distinct q → Distinct (mark_unsent q h)
unfolding mark_unsent
mark_unsent-Distinct [] h d = d
mark_unsent-Distinct (e ∷ q) h d = elim (Bool-cases (e.handle == h)) [
  | inl t ↦ rw t d
  | inr f ↦ rw f (All-mark_unsent _ q h (λ x p. p) d.0, mark_unsent-Distinct q h d.1)
]

-- A state whose queue is a given list.
pub IsValid-queue :
    (u : Uplink) (q : List Entry)
    → u.queue ≡ q
    → u.queue_len ≡ length q
    → All EntryIsValid q
    → Distinct q
    → All (λ e. e.handle ≤ u.queue_id) q
    → IsValid u
IsValid-queue u q e n a d g = record {
  counted = rw e n;
  entries = rw e a;
  distinct = rw e d;
  given = subst (All (λ x. x.handle ≤ u.queue_id)) (sym e) g;
}
