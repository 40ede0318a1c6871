-- ===== src/Platform.antt =====
-- The platform layer, crates/nectarpilot-platform: what stands between the core and the desktop.
pub mod Session
pub mod Input
pub mod Emergency
pub mod Executor
pub mod Freeze
pub mod Hotkeys
mod Tests
