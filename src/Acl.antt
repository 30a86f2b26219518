-- ===== src/Acl.antt =====
-- The server access control list of a room, internal/matrixstate/acl.go.
pub mod Glob
pub mod Collapse
pub mod Rules
mod Tests
