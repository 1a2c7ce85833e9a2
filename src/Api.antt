-- ===== src/Api.antt =====
-- The settings and exports of the server: runtime/observation-api.ts.
pub mod Cleanup
pub mod Backup
pub mod Requests
pub mod Statement
pub mod Bodies
pub mod Calls
pub mod Ordering
mod Tests
