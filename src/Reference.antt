-- ===== src/Reference.antt =====
-- Weak references: src/server/reference.h and src/server/reference.c.
pub mod Defs
pub mod Totals
pub mod Balance
mod Steps
mod Words
mod Exchange
pub mod Runs
mod Tests
