-- ===== src/Metal.antt =====
-- The Metal backend's configuration, tuning and buffer workspace: crates/marian-metal/src/config.rs,
-- tuning.rs and workspace.rs beside it.
pub mod Config
pub mod Tuning
pub mod Workspace
pub mod Tests
