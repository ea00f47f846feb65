-- ===== src/Timing/Tests.antt =====
-- Two stamps 1.2 ms apart, over a border between seconds.
use dnbd.Base.{◌≡◌, ◌/◌, ◌-◌, ◌↔◌, ◌<◌, ◌≤◌, ◌+◌, true, refl, arith}
use dnbd.Timing.Defs.{Ticks, diff, diff_ms, diff_us, reached, reached_precise}
use dnbd.Timing.Rounding.{nanoseconds, ceil_div, diff_lem, diff_ms_us, reached_bounds}

abbrev early : Ticks
early = record { sec = 4; nsec = 999000000 }

abbrev late : Ticks
late = record { sec = 5; nsec = 200000 }

diff_lem_example : diff early late ≡ (nanoseconds late - nanoseconds early) / 1000000000
diff_lem_example = diff_lem early late (omega arith) (omega arith) (omega arith)

diff_ms_us_example :
    (diff_ms early late ≡ ceil_div (nanoseconds late - nanoseconds early) 1000000)
    × (diff_us early late ≡ ceil_div (nanoseconds late - nanoseconds early) 1000)
diff_ms_us_example = diff_ms_us early late (omega arith) (omega arith)

-- Rounded down it would be 1.
two_ms : diff_ms early late ≡ 2
unfolding diff_ms
two_ms = refl

reached_bounds_example :
    ((reached_precise early late ≡ true) ↔ (nanoseconds early < nanoseconds late))
    × (nanoseconds early ≤ nanoseconds late → reached early late ≡ true)
    × (reached early late ≡ true → nanoseconds early < nanoseconds late + 1000000000)
reached_bounds_example = reached_bounds early late (omega arith) (omega arith)
