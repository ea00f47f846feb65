-- ===== src/Timing/Defs.antt =====
-- The inline functions of inc/dnbd3/shared/timing.h. A stamp is taken after `timing_setBase`, so its
-- seconds count from the start of the program and are not negative; time_t is wide enough for them.
-- The clock itself is read by the callers and handed over.
use dnbd.Base.{ℕ, ◌+◌, ◌-◌, ◌*◌, ◌/◌, ◌%◌, ◌^◌, Bool, ◌&&◌, ◌||◌, ltb, leb, ◌==◌, if◌then◌else◌}

-- `ticks`, a `struct timespec`.
pub record Ticks : Type 0 where
  pub sec : ℕ
  pub nsec : ℕ

-- `timing_get`: what the clock says, less the base.
unfoldable pub since_base : Ticks → Ticks → Ticks
since_base base clock = record clock { sec = clock.sec - base.sec }

-- `timing_addSeconds` and `timing_set`, for a number of seconds that is not negative.
unfoldable pub add_seconds : Ticks → ℕ → Ticks
add_seconds base seconds = record base { sec = base.sec + seconds }

unfoldable pub reached : Ticks → Ticks → Bool
reached timeout now = leb timeout.sec now.sec

unfoldable pub reached_precise : Ticks → Ticks → Bool
reached_precise timeout now =
    ltb timeout.sec now.sec || ((now.sec == timeout.sec) && ltb timeout.nsec now.nsec)

-- `timing_diff`; the result is cut to 32 bits.
unfoldable pub diff : Ticks → Ticks → ℕ
diff start end =
    if leb end.sec start.sec
    then 0
    else (end.sec - start.sec - (if ltb end.nsec start.nsec then 1 else 0)) % 2 ^ 32

unfoldable pub diff_ms : Ticks → Ticks → ℕ
diff_ms start end =
    if ltb end.sec start.sec
    then 0
    else (let whole = (end.sec - start.sec) * 1000 in
        if leb end.nsec start.nsec
        then if whole == 0 then 0 else whole - (start.nsec - end.nsec) / 1000000
        else whole + (end.nsec - start.nsec) / 1000000)

unfoldable pub diff_us : Ticks → Ticks → ℕ
diff_us start end =
    if ltb end.sec start.sec
    then 0
    else (let whole = (end.sec - start.sec) * 1000000 in
        if leb end.nsec start.nsec
        then if whole == 0 then 0 else whole - (start.nsec - end.nsec) / 1000
        else whole + (end.nsec - start.nsec) / 1000)
