-- ===== src/CacheMap.antt =====
-- The cache map of src/server/image.c and image.h: one bit for each block of 4 KiB that is present.
-- The atomic accesses are made in the order of the text, by one thread.
pub mod Masks
pub mod View
pub mod Update
pub mod Complete
pub mod Queries
pub mod Clear
pub mod Bytes
pub mod Range
pub mod Cached
mod Defs
unfoldable pub use Defs.*
mod Tests
