-- ===== src/Reference/Tests.antt =====
-- Two threads read a weak reference while a third one clears it, and 32 threads at once.
use dnbd.Base.{
  ℕ, zero, suc, ◌<◌, ◌≡◌, refl, List, [], ◌∷◌, ◌++◌, false, ◌==◌, if◌then◌else◌, length, get_or,
  arith,
}
use dnbd.Reference.Defs.{
  idle, Action, begin_get, begin_clear, begin_install, begin_put, go, run, start,
}
use dnbd.Reference.Runs.{uses, run_frees, run_counts, IsCovered}

-- Call 0 installs object 1; calls 1 and 2 begin to read; call 0 clears and puts.
abbrev race : List (ℕ × Action)
race =
    (0, begin_install 1)
    ∷ (1, begin_get)
    ∷ (2, begin_get)
    ∷ (1, go false)
    ∷ (2, go false)
    ∷ (1, go false)
    ∷ (0, begin_clear)
    ∷ (2, go false)
    ∷ (0, go false)
    ∷ (0, go false)
    ∷ (2, go false)
    ∷ []

-- Call 1 gets its reference, and puts it back.
abbrev get_and_put : List (ℕ × Action)
get_and_put = (1, go false) ∷ (1, go false) ∷ (1, go false) ∷ (1, begin_put 1) ∷ (1, go false) ∷ []

run_frees_example :
    let s = run (race ++ get_and_put) (start 3) in
    s.frees 1 ≡ (if s.past 1 then (if uses s 1 == 0 then 1 else 0) else 0)
run_frees_example = run_frees 3 (race ++ get_and_put) 1 (omega arith) (λ e. omega arith)

not_yet : (run race (start 3)).frees 1 ≡ 0
unfolding run
not_yet = refl

freed_once : (run (race ++ get_and_put) (start 3)).frees 1 ≡ 1
unfolding run
freed_once = refl

three_calls : 1 < length (run race (start 3)).calls
unfolding run
three_calls = omega arith

run_counts_example : IsCovered (run race (start 3)) (get_or (run race (start 3)).calls 1 idle)
run_counts_example = run_counts 3 race 1 (omega arith) three_calls

-- Calls up to `n` take one step each on the way into the offset.
abbrev readers : ℕ → List (ℕ × Action)
readers zero = []
readers (suc n) = readers n ++ ((n, begin_get) ∷ (n, go false) ∷ (n, go false) ∷ [])

-- The 32nd reader moves the word out of the object's block: 64 is the address of the next one.
overflow : (run ((0, begin_install 1) ∷ readers 32) (start 32)).weak ≡ 64
unfolding run
overflow = refl
