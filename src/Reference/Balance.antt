-- ===== src/Reference/Balance.antt =====
-- What holds between any two steps.
use dnbd.Base.{
  ℕ, ◌+◌, ◌*◌, ◌/◌, ◌%◌, ◌≤◌, ◌<◌, ◌≡◌, ◌≢◌, inl, inr, refl, Bool, true, false, ◌==◌, if◌then◌else◌,
  length, get_or, All, All-replicate, length-replicate, arith, Bool-cases,
}
use dnbd.Reference.Defs.{
  Call, idle, tests, swaps, got, counted, compares, gives_back, replaced, puts, State, start,
}
use dnbd.Reference.Totals.{total, total-replicate, total_others, flying, load, leaving, stray}

-- Whether the word points to `o`, and its offset then.
unfoldable pub slot : ℕ → ℕ → ℕ
slot o weak = if weak / 32 == o then 1 else 0

unfoldable pub offset : ℕ → ℕ → ℕ
offset o weak = if weak / 32 == o then weak % 32 else 0

pub offset_le : (o weak : ℕ) → offset o weak ≤ 31 * slot o weak
unfolding slot offset
offset_le o weak = ground arith

-- The counter of `o` and all that is still to be taken from it or added to it. The numbers are those of
-- `o`: its counter, its calls of `free`, the references held, and the four totals of its calls.
pub record Balanced (past : Bool) (weak o count frees held flying load leaving stray : ℕ)
    : Type 0 where
  pub once : slot o weak + leaving ≤ 1
  pub flies : slot o weak ≡ 1 → (offset o weak ≡ flying) × (stray ≡ 0)
  pub balance : count + offset o weak ≡ 33 * slot o weak + held + load
  pub unused :
      past ≡ false
      → (slot o weak ≡ 0)
        × (held ≡ 0)
        × (load ≡ 0)
        × (frees ≡ 0)
        × (stray ≡ 0)
        × (flying ≡ 0)
        × (leaving ≡ 0)
  pub freed : past ≡ true → frees ≡ (if count == 0 then 1 else 0)

abbrev pub BalancedAt : State → ℕ → Type 0
BalancedAt s o =
    Balanced (s.past o) s.weak o (s.counts o) (s.frees o) (s.held o) (total (flying o) s.calls)
      (total (load o) s.calls) (total (leaving o) s.calls) (total (stray o) s.calls)

-- What holds of a call's local variables.
unfoldable pub IsProper : Call → Type 0
IsProper idle = Unit
IsProper (tests v) = v % 32 ≤ 30
IsProper (swaps v) = (v ≢ 0) × (v % 32 ≤ 30)
IsProper (got x) = Unit
IsProper (counted x) = Unit
IsProper (compares x v) = Unit
IsProper (gives_back x v) = v / 32 ≡ x
IsProper (replaced x k) = k ≤ 31
IsProper (puts x) = Unit

pub record IsValid (s : State) : Type 0 where
  pub room : length s.calls ≤ 31
  pub null : s.weak / 32 ≡ 0 → s.weak ≡ 0
  pub proper : All IsProper s.calls
  pub balanced : (o : ℕ) → o ≢ 0 → BalancedAt s o

flying_few : (o : ℕ) (c : Call) → flying o c ≤ 1
unfolding flying
flying_few o idle = omega arith
flying_few o (tests v) = omega arith
flying_few o (swaps v) = omega arith
flying_few o (got x) = ground arith
flying_few o (counted x) = ground arith
flying_few o (compares x v) = ground arith
flying_few o (gives_back x v) = ground arith
flying_few o (replaced x k) = omega arith
flying_few o (puts x) = omega arith

-- While a call does not fly, the offset has room for it.
pub word_room :
    (s : State) (i : ℕ)
    → IsValid s
    → i < length s.calls
    → ((o : ℕ) → flying o (get_or s.calls i idle) ≡ 0)
    → s.weak % 32 ≤ 30
unfolding slot offset
word_room s i v h still = elim (Bool-cases (s.weak / 32 == 0)) [
  | inl t ↦ omega (arith, v.null (ground arith))
  | inr f ↦
      let o = s.weak / 32 in
      let here = ((v.balanced o (ground arith)).flies (ground arith)).0 in
      ground (arith, here, total_others (flying o) s.calls i (flying_few o) h, still o, v.room)
]

pub start-IsValid : (n : ℕ) → n ≤ 31 → IsValid (start n)
unfolding IsProper slot offset flying load leaving stray
start-IsValid n h = record {
  room = omega (arith, length-replicate {A = Call} n idle);
  null = λ e. refl;
  proper = All-replicate IsProper n idle tt;
  balanced = λ o ne. record {
    once = ground (arith, total-replicate (leaving o) n refl);
    flies = λ e. absurd (ground arith);
    balance = ground (arith, total-replicate (load o) n refl);
    unused = λ e. (
      ground arith,
      refl,
      total-replicate (load o) n refl,
      refl,
      total-replicate (stray o) n refl,
      total-replicate (flying o) n refl,
      total-replicate (leaving o) n refl,
    );
    freed = λ e. absurd (ground arith);
  };
}
