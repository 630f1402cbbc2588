-- ===== src/Manager.antt =====
-- `xray-core-manager.py`.
pub mod Command
pub mod Machine
pub mod Files
pub mod Version
pub mod Settings
pub mod Info
pub mod Process
pub mod Health
pub mod RuntimeConfig
pub mod Rollback
pub mod Deploy
pub mod Build
pub mod Ensure
pub mod Main
pub mod Reading
pub mod Tracing
