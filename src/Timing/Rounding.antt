-- ===== src/Timing/Rounding.antt =====
-- The three differences against the exact time between two stamps, and the two timeout tests.
use dnbd.Base.{ℕ, ◌+◌, ◌-◌, ◌*◌, ◌/◌, ◌^◌, ◌≤◌, ◌<◌, ◌≡◌, ◌↔◌, true, arith, leb, if◌then◌else◌}
use dnbd.Timing.Defs.{Ticks, reached, reached_precise, diff, diff_ms, diff_us}

abbrev pub nanoseconds : Ticks → ℕ
nanoseconds t = t.sec * 1000000000 + t.nsec

abbrev pub IsStamp : Ticks → Type 0
IsStamp t = t.nsec < 1000000000

-- For two stamps less than 2 ^ 32 seconds apart, timing_diff is the time between them in seconds,
-- rounded down, and 0 if the end lies before the start.
pub diff_lem :
    (start end : Ticks)
    → IsStamp start
    → IsStamp end
    → end.sec < start.sec + 2 ^ 32
    → diff start end ≡ (nanoseconds end - nanoseconds start) / 1000000000
unfolding diff
diff_lem start end hs he near = ground arith

-- Rounded up.
abbrev pub ceil_div : ℕ → ℕ → ℕ
ceil_div n k = (n + (k - 1)) / k

-- timing_diffMs and timing_diffUs are 0 if the end lies before the start, in the unit of the function;
-- otherwise they round the time between the stamps down where the end's nanoseconds are greater than
-- the start's, and up where they are not.
pub diff_ms_us :
    (start end : Ticks)
    → IsStamp start
    → IsStamp end
    → let between = nanoseconds end - nanoseconds start in
      let up = leb end.nsec start.nsec in
      (diff_ms start end ≡ (if up then ceil_div between 1000000 else between / 1000000))
      × (diff_us start end ≡ (if up then ceil_div between 1000 else between / 1000))
unfolding diff_ms diff_us
diff_ms_us start end hs he = (ground arith, ground arith)

-- timing_reachedPrecise is true exactly when the timeout lies before now; timing_reached is true if the
-- timeout does not lie after now, and otherwise only if less than a second is left.
pub reached_bounds :
    (timeout now : Ticks)
    → IsStamp timeout
    → IsStamp now
    → ((reached_precise timeout now ≡ true) ↔ (nanoseconds timeout < nanoseconds now))
      × (nanoseconds timeout ≤ nanoseconds now → reached timeout now ≡ true)
      × (reached timeout now ≡ true → nanoseconds timeout < nanoseconds now + 1000000000)
unfolding reached reached_precise
reached_bounds timeout now ht hn = (ground arith, λ h. ground arith, λ h. ground arith)
