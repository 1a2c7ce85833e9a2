-- ===== src/Configuration.antt =====
-- The configuration of the runtime: runtime/config-registry.ts, runtime/config-loader.ts and
-- runtime/authentication-config.ts.
pub mod Values
pub mod Registry
pub mod Loader
pub mod Accounts
pub mod Authentication
pub mod Describe
pub mod Database
mod Tests
