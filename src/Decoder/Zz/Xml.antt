-- ===== src/Decoder/Zz/Xml.antt =====
-- src/decoder/zz_http2k/zz_http2k_parser_xml.c: XML bodies, turned into JSON messages.
pub mod Bits
pub mod BitLaws
pub mod Errors
pub mod Session
pub mod Handlers
pub mod Process
pub mod Tree
pub mod Pen
pub mod Frames
pub mod Steps
pub mod Document
pub mod Walk
pub mod Root
pub mod Output
pub mod Message
pub mod Loop
pub mod Text
mod Sample
mod Tests
