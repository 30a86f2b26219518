-- ===== src/Cache.antt =====
-- internal/cache: the size-bounded LRU cache (lru.go).
pub mod Lru
pub mod Elements
pub mod Coherent
pub mod Methods
pub mod Spec
pub mod Refine
pub mod Steps
pub mod Run
pub mod History
mod Tests
