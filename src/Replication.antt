-- ===== src/Replication.antt =====
-- internal/replication/replication.go: the subscriber that keeps the caches consistent.
pub mod Commands
pub mod Subscriber
pub mod Events
pub mod Fresh
pub mod Answers
pub mod Lines
pub mod Switches
pub mod Mild
pub mod Armed
mod Tests
