-- ===== src/Observation.antt =====
-- Authorized reads of the observation database: runtime/observation and runtime/security/live.ts.
pub mod Queries
pub mod Live
pub mod Rpc
mod Tests
