-- ===== src/Reference/Defs.antt =====
-- Weak references: src/server/reference.h, reference.c and reftypes.h. A weak reference is a word that
-- threads read and exchange without a lock. It points into a block of 32 bytes inside the object that it
-- refers to; the offset in the block counts the calls of `ref_get` that are in between. `ref_setref`
-- adds 33 to the counter of the new object, 32 of them for these calls, and settles with the old one.
-- Each access of shared memory is a step, and the calls that are in progress take steps in any order.
-- Counters are natural numbers; that none is taken below 0 is proved with the invariant.
use dnbd.Base.{
  ℕ, ◌+◌, ◌-◌, ◌*◌, ◌/◌, ◌%◌, Bool, true, false, ◌&&◌, not, List, [], ◌∷◌, ltb, ◌==◌, if◌then◌else◌,
  length, get_or, set, replicate,
}

-- `sizeof( union _aligned_ref_ )`. Object `o`'s block is at address `32 * o`, and 0 is NULL.
abbrev pub block : ℕ
block = 32

-- Where a call stands, with its local variables.
pub data Call : Type 0 where
  -- No call.
  idle : Call
  -- `ref_get`: before the tests of `old_weakref`; before the first exchange; before and after `++count`,
  -- of the object found; before the test of `cur_weakref`; before the second exchange.
  tests swaps : (old_weakref : ℕ) → Call
  got counted : (obj : ℕ) → Call
  compares gives_back : (obj cur_weakref : ℕ) → Call
  -- `ref_setref`, after the exchange: the old object and its offset.
  replaced : (obj offset : ℕ) → Call
  -- `ref_put`
  puts : (obj : ℕ) → Call

-- The shared memory. `frees` counts the calls of an object's `free`; `held` counts the references that
-- are in the hands of the program, and `past` tells the objects that were installed once.
pub record State : Type 0 where
  pub weak : ℕ
  pub counts : ℕ → ℕ
  pub frees : ℕ → ℕ
  pub held : ℕ → ℕ
  pub past : ℕ → Bool
  pub calls : List Call

-- A function changed at one place.
abbrev pub at {ℓ} : {A : Type ℓ} → ℕ → (A → A) → (ℕ → A) → ℕ → A
at o g f x = if x == o then g (f x) else f x

abbrev pub goto : ℕ → Call → State → State
goto i c s = record s { calls = set s.calls i c }

-- `ref_get` returns `obj`: the program holds one reference more.
unfoldable pub return_ref : ℕ → ℕ → State → State
return_ref i obj s = record s { held = at obj (λ n. n + 1) s.held; calls = set s.calls i idle }

-- `continue` goes on with the loop's condition, so a word that was just read goes to the exchange.
unfoldable pub test_word : ℕ → ℕ → State → State
test_word i v s =
    if v == 0
    then goto i idle s
    else if v / block == (v + 1) / block
    then goto i (swaps v) s
    else goto i (swaps s.weak) s

-- A weak exchange may also fail for no reason: `spurious`.
unfoldable pub swap_word : Bool → ℕ → ℕ → State → State
swap_word spurious i v s =
    if (s.weak == v) && not spurious
    then record s { weak = v + 1; calls = set s.calls i (got (v / block)) }
    else goto i (tests s.weak) s

unfoldable pub compare_word : ℕ → ℕ → ℕ → State → State
unfolding return_ref
compare_word i obj v s =
    if v / block == obj
    then goto i (gives_back obj v) s
    else return_ref i obj (record s { counts = at obj (λ n. n - 1) s.counts })

unfoldable pub give_back_word : Bool → ℕ → ℕ → ℕ → State → State
unfolding return_ref
give_back_word spurious i obj v s =
    if (s.weak == v) && not spurious
    then return_ref i obj (record s { weak = v - 1 })
    else goto i (compares obj s.weak) s

-- `ref_put`
unfoldable pub put_ref : ℕ → ℕ → State → State
put_ref i obj s = record s {
  counts = at obj (λ n. n - 1) s.counts;
  frees = if s.counts obj - 1 == 0 then at obj (λ n. n + 1) s.frees else s.frees;
  calls = set s.calls i idle;
}

-- The next step of a call.
unfoldable pub advance : Bool → ℕ → Call → State → State
unfolding test_word swap_word compare_word give_back_word put_ref
advance spurious i idle s = s
advance spurious i (tests v) s = test_word i v s
advance spurious i (swaps v) s = swap_word spurious i v s
advance spurious i (got obj) s = record s {
  counts = at obj (λ n. n + 1) s.counts;
  calls = set s.calls i (counted obj);
}
advance spurious i (counted obj) s = goto i (compares obj s.weak) s
advance spurious i (compares obj v) s = compare_word i obj v s
advance spurious i (gives_back obj v) s = give_back_word spurious i obj v s
advance spurious i (replaced obj offset) s = record s {
  counts = at obj (λ n. n + offset - block) s.counts;
  calls = set s.calls i (puts obj);
}
advance spurious i (puts obj) s = put_ref i obj s

-- After the exchange in `ref_setref`.
abbrev pub settle : ℕ → Call
settle old = if old == 0 then idle else replaced (old / block) (old % block)

-- `ref_setref` of an object that `ref_init` made with the counter 0, and that nothing refers to yet.
unfoldable pub install : ℕ → ℕ → State → State
install i obj s = record s {
  weak = block * obj;
  counts = at obj (λ n. n + (block + 1)) s.counts;
  past = at obj (λ p. true) s.past;
  calls = set s.calls i (settle s.weak);
}

-- `ref_setref` of NULL.
unfoldable pub clear : ℕ → State → State
clear i s = record s { weak = 0; calls = set s.calls i (settle s.weak) }

-- What may happen next: a call begins, or call `i` goes on. An object is installed once; a reference is
-- put back, or counted once more by `ref_inc`, by who holds one.
pub data Action : Type 0 where
  begin_get begin_clear : Action
  begin_install begin_put inc : (obj : ℕ) → Action
  go : (spurious : Bool) → Action

abbrev pub is_idle : Call → Bool
is_idle idle = true
is_idle _ = false

-- There is room for a call.
unfoldable pub is_free : ℕ → State → Bool
is_free i s = ltb i (length s.calls) && is_idle (get_or s.calls i idle)

unfoldable pub act : ℕ → Action → State → State
unfolding advance install clear is_free
act i begin_get s = if is_free i s then goto i (tests s.weak) s else s
act i begin_clear s = if is_free i s then clear i s else s
act i (begin_install obj) s =
    if is_free i s && (not (obj == 0) && not (s.past obj)) then install i obj s else s
act i (begin_put obj) s =
    if is_free i s && ltb 0 (s.held obj)
    then record s { held = at obj (λ n. n - 1) s.held; calls = set s.calls i (puts obj) }
    else s
act i (inc obj) s =
    if ltb 0 (s.held obj)
    then record s { counts = at obj (λ n. n + 1) s.counts; held = at obj (λ n. n + 1) s.held }
    else s
act i (go spurious) s = advance spurious i (get_or s.calls i idle) s

unfoldable pub run : List (ℕ × Action) → State → State
unfolding act
run [] s = s
run ((i, a) ∷ rest) s = run rest (act i a s)

-- No object yet, and room for `n` calls at a time.
abbrev pub start : ℕ → State
start n = record {
  weak = 0;
  counts = λ o. 0;
  frees = λ o. 0;
  held = λ o. 0;
  past = λ o. false;
  calls = replicate n idle;
}
