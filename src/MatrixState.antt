-- ===== src/MatrixState.antt =====
-- internal/matrixstate: who may read a room, and what is answered.
pub mod Errors
pub mod Access
pub mod RoomAcl
pub mod Gate
pub mod StateIds
pub mod StateBefore
pub mod Served
pub mod Visibility
pub mod Serving
pub mod Private
pub mod Openness
pub mod Opened
pub mod Seen
pub mod Shown
pub mod MissingEvents
pub mod Rendered
pub mod Found
pub mod Digest
mod EventTests
mod Tests
