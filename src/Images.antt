-- ===== src/Images.antt =====
-- The list of images of src/server/image.c.
pub mod Defs
pub mod Valid
pub mod Steps
pub mod Search
pub mod Listing
pub mod New
pub mod Reload
pub mod Runs
pub mod Lookup
mod Tests
