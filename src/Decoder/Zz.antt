-- ===== src/Decoder/Zz.antt =====
-- src/decoder/zz_http2k
pub mod Json
pub mod Xml
pub mod Session
pub mod Decode
