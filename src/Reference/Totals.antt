-- ===== src/Reference/Totals.antt =====
-- Sums over the calls that are in progress.
use dnbd.Base.{
  ℕ, zero, suc, ◌+◌, ◌-◌, ◌/◌, ◌≤◌, ◌<◌, ◌≡◌, refl, List, [], ◌∷◌, ◌==◌, if◌then◌else◌, length,
  get_or, set, replicate, arith,
}
use dnbd.Reference.Defs.{Call, idle, got, counted, compares, gives_back, replaced, puts}

unfoldable pub total : (Call → ℕ) → List Call → ℕ
total f [] = 0
total f (c ∷ cs) = f c + total f cs

pub total-set :
    (f : Call → ℕ) (cs : List Call) (i : ℕ) (c : Call)
    → i < length cs
    → total f (set cs i c) + f (get_or cs i idle) ≡ total f cs + f c
unfolding total
total-set f [] i c h = absurd (omega arith)
total-set f (x ∷ cs) zero c h = omega arith
total-set f (x ∷ cs) (suc i) c h = omega (arith, total-set f cs i c (omega arith))

pub total_part :
    (f : Call → ℕ) (cs : List Call) (i : ℕ) → i < length cs → f (get_or cs i idle) ≤ total f cs
unfolding total
total_part f [] i h = absurd (omega arith)
total_part f (x ∷ cs) zero h = omega arith
total_part f (x ∷ cs) (suc i) h = omega (arith, total_part f cs i (omega arith))

pub total-replicate : (f : Call → ℕ) (n : ℕ) → f idle ≡ 0 → total f (replicate n idle) ≡ 0
unfolding total
total-replicate f zero h = refl
total-replicate f (suc n) h = omega (arith, total-replicate f n h)

-- One call is not counted by `f`, so the others are at most all but one.
pub total_others :
    (f : Call → ℕ) (cs : List Call) (i : ℕ)
    → ((c : Call) → f c ≤ 1)
    → i < length cs
    → total f cs + 1 ≤ length cs + f (get_or cs i idle)
unfolding total
total_others f [] i few h = absurd (omega arith)
total_others f (x ∷ cs) zero few h = omega (arith, total_most f cs few)
  where
    total_most : (f : Call → ℕ) (cs : List Call) → ((c : Call) → f c ≤ 1) → total f cs ≤ length cs
    total_most f [] few = omega arith
    total_most f (x ∷ cs) few = omega (arith, few x, total_most f cs few)
total_others f (x ∷ cs) (suc i) few h = omega (arith, few x, total_others f cs i few (omega arith))

abbrev when : ℕ → ℕ → ℕ → ℕ
when x o n = if x == o then n else 0

-- Calls of `ref_get` that the offset of `o`'s block counts.
unfoldable pub flying : ℕ → Call → ℕ
flying o (got x) = when x o 1
flying o (counted x) = when x o 1
flying o (compares x v) = when x o 1
flying o (gives_back x v) = when x o 1
flying o _ = 0

-- What a call will take from `o`'s counter before it is over, less what it hands over.
unfoldable pub load : ℕ → Call → ℕ
load o (got x) = when x o 1
load o (counted x) = when x o 2
load o (compares x v) = when x o 2
load o (gives_back x v) = when x o 2
load o (replaced x k) = when x o (33 - k)
load o (puts x) = when x o 1
load o _ = 0

unfoldable pub leaving : ℕ → Call → ℕ
leaving o (replaced x k) = when x o 1
leaving o _ = 0

-- Calls that read a word that did not point to `o` any more.
unfoldable pub stray : ℕ → Call → ℕ
stray o (compares x v) = if v / 32 == x then 0 else when x o 1
stray o _ = 0

-- Calls that use `o`.
unfoldable pub using_it : ℕ → Call → ℕ
using_it o (got x) = when x o 1
using_it o (counted x) = when x o 1
using_it o (compares x v) = when x o 1
using_it o (gives_back x v) = when x o 1
using_it o (replaced x k) = when x o 1
using_it o (puts x) = when x o 1
using_it o _ = 0
