-- ===== src/Session.antt =====
-- The client connections of the server, src/server/net.c.
pub mod Defs
pub mod Commands
pub mod Roster
mod Payload
pub mod Blocks
pub mod Framing
pub mod Backlog
pub mod Listing
mod Tests
