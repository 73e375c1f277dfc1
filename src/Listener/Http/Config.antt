-- ===== src/Listener/Http/Config.antt =====
-- src/listener/http/http_config.c
mod Tests
pub mod Args
pub mod Secrets
pub mod Layout
pub mod Start
pub mod Passwords
pub mod Opened
pub mod Outcome
pub mod Create
pub mod Settings
pub mod Scrub
pub mod Balance
