-- ===== src/Security.antt =====
-- The authorization layer, runtime/security.
mod Tests
mod HttpTests
mod SessionTests
pub mod Permissions
pub mod ReadScope
pub mod Sessions
pub mod Policy
pub mod Http
pub mod Entry
