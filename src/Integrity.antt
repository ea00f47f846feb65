-- ===== src/Integrity.antt =====
-- src/server/integrity.c, the queue of hash blocks to check. An image is named by its number, which
-- stands for the pointer; `none` is NULL. `queueLen` is the length of `entries`: the slots beyond it
-- hold nothing that is read.
mod Queue
pub mod Covered
mod Tests
unfoldable pub use Queue.*
