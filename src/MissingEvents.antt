-- ===== src/MissingEvents.antt =====
-- The walk behind /get_missing_events, internal/store/missingevents.go.
pub mod Walk
pub mod Sound
pub mod Loops
pub mod Answers
pub mod Complete
mod Tests
