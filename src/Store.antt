-- ===== src/Store.antt =====
-- internal/store: what is read from the database, and the caches in front of it.
pub mod Types
pub mod Caches
pub mod ReadThrough
pub mod StateGroups
pub mod GroupWalk
pub mod Newest
pub mod Filtered
pub mod Views
pub mod CachedViews
pub mod Keyed
pub mod Whole
pub mod Rooms
pub mod Presence
pub mod Standing
pub mod Current
pub mod Reads
mod Tests
