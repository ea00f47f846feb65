-- ===== src/Uplink.antt =====
-- The request queue of src/server/uplink.c: what the server still waits for from the server above it.
-- A lock is taken and released within one function, so a function is one step here.
pub mod Defs
pub mod Entries
pub mod Request
pub mod Valid
pub mod Extend
pub mod Pick
pub mod Enqueue
pub mod Insert
pub mod Laws
pub mod Clients
pub mod Reply
pub mod Answers
pub mod Removal
pub mod Resend
pub mod Replicate
pub mod NextBlock
mod Tests
