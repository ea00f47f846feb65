-- ===== src/Reference/Runs.antt =====
-- Any number of steps, by up to 31 calls at a time.
use dnbd.Base.{
  ℕ, zero, suc, ◌+◌, ◌*◌, ◌/◌, ◌≤◌, ◌<◌, ◌≡◌, ◌≢◌, inl, inr, refl, sym, subst, List, [], ◌∷◌, Bool,
  true, ◌&&◌, not, &&-true, ◌==◌, if◌then◌else◌, ltb, length, get_or, All, All-get_or, arith,
  Bool-cases,
}
use dnbd.Reference.Defs.{
  Call, idle, tests, swaps, got, counted, compares, gives_back, replaced, puts, State, advance,
  Action, begin_get, begin_clear, begin_install, begin_put, inc, go, is_idle, is_free, act, run,
  start,
}
use dnbd.Reference.Totals.{total, total_part, load, using_it}
use dnbd.Reference.Balance.{slot, offset_le, IsProper, IsValid, start-IsValid}
use dnbd.Reference.Steps.{
  got-IsValid, counted-IsValid, compare_word-IsValid, replaced-IsValid, put_ref-IsValid,
  begin_put-IsValid, inc-IsValid,
}
use dnbd.Reference.Words.{
  begin_get-IsValid, test_word-IsValid, swap_word-IsValid, give_back_word-IsValid,
}
use dnbd.Reference.Exchange.{clear-IsValid, install-IsValid}

advance-IsValid :
    (spurious : Bool) (s : State) (i : ℕ) (v : IsValid s) (c : Call)
    → i < length s.calls
    → get_or s.calls i idle ≡ c
    → IsValid (advance spurious i c s)
unfolding advance
advance-IsValid spurious s i v idle h e = v
advance-IsValid spurious s i v (tests w) h e = test_word-IsValid s i v h w e
advance-IsValid spurious s i v (swaps w) h e = swap_word-IsValid s i v h spurious w e
advance-IsValid spurious s i v (got x) h e = got-IsValid s i v h x e
advance-IsValid spurious s i v (counted x) h e = counted-IsValid s i v h x e
advance-IsValid spurious s i v (compares x w) h e = compare_word-IsValid s i v h x w e
advance-IsValid spurious s i v (gives_back x w) h e = give_back_word-IsValid s i v h spurious x w e
advance-IsValid spurious s i v (replaced x k) h e = replaced-IsValid s i v h x k e
advance-IsValid spurious s i v (puts x) h e = put_ref-IsValid s i v h x e

idle_eq : (c : Call) → is_idle c ≡ true → c ≡ idle
idle_eq idle e = refl
idle_eq (tests w) e = ground arith
idle_eq (swaps w) e = ground arith
idle_eq (got x) e = ground arith
idle_eq (counted x) e = ground arith
idle_eq (compares x w) e = ground arith
idle_eq (gives_back x w) e = ground arith
idle_eq (replaced x k) e = ground arith
idle_eq (puts x) e = ground arith

free_lem :
    (i : ℕ) (s : State) → is_free i s ≡ true → (i < length s.calls) × (get_or s.calls i idle ≡ idle)
unfolding is_free
free_lem i s e =
    let both = &&-true (ltb i (length s.calls)) (is_idle (get_or s.calls i idle)) e in
    (ground (arith, both.0), idle_eq (get_or s.calls i idle) both.1)

past_end : (cs : List Call) (i : ℕ) → length cs ≤ i → get_or cs i idle ≡ idle
past_end [] i h = refl
past_end (c ∷ cs) zero h = absurd (omega arith)
past_end (c ∷ cs) (suc i) h = past_end cs i (omega arith)

act-IsValid : (i : ℕ) (a : Action) (s : State) → IsValid s → IsValid (act i a s)
unfolding act
act-IsValid i begin_get s v = elim (Bool-cases (is_free i s)) [
  | inl t ↦ let f = free_lem i s t in rw t (begin_get-IsValid s i v f.0 f.1)
  | inr n ↦ rw n v
]
act-IsValid i begin_clear s v = elim (Bool-cases (is_free i s)) [
  | inl t ↦ let f = free_lem i s t in rw t (clear-IsValid s i v f.0 f.1)
  | inr n ↦ rw n v
]
act-IsValid i (begin_install x) s v =
    elim (Bool-cases (is_free i s && (not (x == 0) && not (s.past x)))) [
      | inl t ↦
          let both = &&-true (is_free i s) (not (x == 0) && not (s.past x)) t in
          let f = free_lem i s both.0 in
          rw t (install-IsValid s i v f.0 x f.1 (ground (arith, both.1)) (ground (arith, both.1)))
      | inr n ↦ rw n v
    ]
act-IsValid i (begin_put x) s v = elim (Bool-cases (is_free i s && ltb 0 (s.held x))) [
  | inl t ↦
      let both = &&-true (is_free i s) (ltb 0 (s.held x)) t in
      let f = free_lem i s both.0 in
      rw t (begin_put-IsValid s i v f.0 x f.1 (ground (arith, both.1)))
  | inr n ↦ rw n v
]
act-IsValid i (inc x) s v = elim (Bool-cases (ltb 0 (s.held x))) [
  | inl t ↦ rw t (inc-IsValid s v x (ground arith))
  | inr n ↦ rw n v
]
act-IsValid i (go spurious) s v = elim (Bool-cases (ltb i (length s.calls))) [
  | inl t ↦ advance-IsValid spurious s i v (get_or s.calls i idle) (ground arith) refl
  | inr n ↦
      subst (λ c. IsValid (advance spurious i c s)) (sym (past_end s.calls i (ground arith)))
        (stays spurious)
]
  where
    stays : (spurious : Bool) → IsValid (advance spurious i idle s)
    stays spurious = v

run-IsValid : (actions : List (ℕ × Action)) (s : State) → IsValid s → IsValid (run actions s)
unfolding run
run-IsValid [] s v = v
run-IsValid ((i, a) ∷ rest) s v = run-IsValid rest (act i a s) (act-IsValid i a s v)

-- The calls that use an object are those that will take something from its counter.
using_load :
    (o : ℕ) (c : Call) → IsProper c → (using_it o c ≤ load o c) × (load o c ≤ 33 * using_it o c)
unfolding using_it load IsProper
using_load o idle p = ground arith
using_load o (tests w) p = (omega arith, omega arith)
using_load o (swaps w) p = (omega arith, omega arith)
using_load o (got x) p = (ground arith, ground arith)
using_load o (counted x) p = (ground arith, ground arith)
using_load o (compares x w) p = (ground arith, ground arith)
using_load o (gives_back x w) p = (ground arith, ground arith)
using_load o (replaced x k) p = (ground arith, ground arith)
using_load o (puts x) p = (ground arith, ground arith)

total_using :
    (o : ℕ) (cs : List Call)
    → All IsProper cs
    → (total (using_it o) cs ≤ total (load o) cs) × (total (load o) cs ≤ 33 * total (using_it o) cs)
unfolding total
total_using o [] p = (omega arith, omega arith)
total_using o (c ∷ cs) p = (
  omega (arith, using_load o c p.0, total_using o cs p.1),
  omega (arith, using_load o c p.0, total_using o cs p.1),
)

-- All uses of an object: the weak reference itself, the references held, and the calls in progress.
abbrev pub uses : State → ℕ → ℕ
uses s o = slot o s.weak + s.held o + total (using_it o) s.calls

-- After any steps of up to 31 calls at a time, an object that was installed has been freed once if
-- nothing uses it any more, neither the weak reference nor a reference held nor a call in progress, and
-- not at all if something uses it; an object that was not installed has not been freed.
pub run_frees :
    (n : ℕ) (actions : List (ℕ × Action)) (o : ℕ)
    → n ≤ 31
    → o ≢ 0
    → let s = run actions (start n) in
      s.frees o ≡ (if s.past o then (if uses s o == 0 then 1 else 0) else 0)
run_frees n actions o few ne =
    let s = run actions (start n) in
    let v = run-IsValid actions (start n) (start-IsValid n few) in
    let b = v.balanced o ne in
    elim (Bool-cases (s.past o)) [
      | inl t ↦
          rw t (
            ground
              (arith, b.freed t, b.balance, total_using o s.calls v.proper, offset_le o s.weak))
      | inr f ↦ rw f (b.unused f).3
    ]

-- What a call takes from its object's counter is there to take.
abbrev pub IsCovered : State → Call → Type 0
IsCovered s (compares x w) = x ≢ 0 → 1 < s.counts x
IsCovered s (replaced x k) = x ≢ 0 → (33 ≤ s.counts x + k) × (k < 32)
IsCovered s (puts x) = x ≢ 0 → 0 < s.counts x
IsCovered s (gives_back x w) = (x ≢ 0 → 1 < s.counts x) × (w / 32 ≡ x)
IsCovered s (got x) = x ≢ 0 → 0 < s.counts x
IsCovered s _ = Unit

covered_lem :
    (s : State) (i : ℕ) (c : Call)
    → IsValid s
    → i < length s.calls
    → get_or s.calls i idle ≡ c
    → IsCovered s c
unfolding load IsProper
covered_lem s i c v h e = go c e (own c e)
  where
    own : (c : Call) → get_or s.calls i idle ≡ c → IsProper c
    own c e = subst IsProper e (All-get_or IsProper s.calls i idle tt v.proper)

    share : (o : ℕ) {c : Call} → get_or s.calls i idle ≡ c → load o c ≤ total (load o) s.calls
    share o e = subst (λ c. load o c ≤ total (load o) s.calls) e (total_part (load o) s.calls i h)

    enough : (o : ℕ) (c : Call) → get_or s.calls i idle ≡ c → o ≢ 0 → load o c ≤ s.counts o
    enough o c e ne = ground (arith, (v.balanced o ne).balance, share o e, offset_le o s.weak)

    go : (c : Call) → get_or s.calls i idle ≡ c → IsProper c → IsCovered s c
    go idle e p = tt
    go (tests w) e p = tt
    go (swaps w) e p = tt
    go (got x) e p = λ ne. ground (arith, enough x (got x) e ne)
    go (counted x) e p = tt
    go (compares x w) e p = λ ne. ground (arith, enough x (compares x w) e ne)
    go (gives_back x w) e p = (λ ne. ground (arith, enough x (gives_back x w) e ne), p)
    go (replaced x k) e p = λ ne. (ground (arith, enough x (replaced x k) e ne), omega (arith, p))
    go (puts x) e p = λ ne. ground (arith, enough x (puts x) e ne)

-- After any steps of up to 31 calls at a time, no counter is taken below 0 by a step that comes next: a
-- call of ref_get that gives its reference back, ref_put, and the correction by ref_setref find as much
-- in the counter of their object as they take.
pub run_counts :
    (n : ℕ) (actions : List (ℕ × Action)) (i : ℕ)
    → n ≤ 31
    → let s = run actions (start n) in i < length s.calls → IsCovered s (get_or s.calls i idle)
run_counts n actions i few h =
    covered_lem (run actions (start n)) i (get_or (run actions (start n)).calls i idle)
      (run-IsValid actions (start n) (start-IsValid n few)) h refl
