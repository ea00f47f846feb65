-- ===== src/AltServers.antt =====
-- The alternative servers of src/server/altservers.c.
pub mod Defs
pub mod Lists
pub mod Uplinks
pub mod Health
pub mod Ranking
pub mod Closeness
pub mod Added
pub mod Counters
pub mod Kept
pub mod RandomChoice
pub mod Shortcut
pub mod Chosen
pub mod Sockets
mod Tests
