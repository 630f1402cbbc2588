-- ===== src/Patch.antt =====
-- `xray_patch/patch_xray.py`.
pub mod Edit
pub mod Hub
pub mod Queue
pub mod Policy
pub mod Hysteria
pub mod Launch
pub mod Tree
