-- ===== src/Serialize.antt =====
-- src/shared/serialize.c and the select-image message of inc/dnbd3/shared/protocol.h and
-- src/server/net.c.
pub mod Defs
pub mod Laws
pub mod Message
pub mod Handshake
mod Tests
