-- ===== src/Engine.antt =====
-- src/engine: the configuration and its reload.
pub mod Config
pub mod Blacklist
pub mod Extra
pub mod Reload
pub mod Program
mod Tests
