-- ===== src/Url.antt =====
-- Decoding the value of a URL parameter: src/server/urldecode.c.
pub mod Defs
pub mod Decode
mod Tests
