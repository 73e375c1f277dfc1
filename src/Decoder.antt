-- ===== src/Decoder.antt =====
-- src/decoder
pub mod Api
pub mod Dumb
pub mod Meraki
pub mod Zz
