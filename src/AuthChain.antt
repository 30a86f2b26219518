-- ===== src/AuthChain.antt =====
-- internal/store/authchain.go: auth chains by the chain cover index and by the recursive walk.
pub mod Cover
pub mod Scan
pub mod Reach
pub mod Query
pub mod Answer
pub mod Walk
pub mod Absorb
pub mod WalkReach
mod Tests
