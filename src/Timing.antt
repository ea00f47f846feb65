-- ===== src/Timing.antt =====
-- Time stamps: inc/dnbd3/shared/timing.h.
pub mod Defs
pub mod Rounding
mod Tests
