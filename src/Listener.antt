-- ===== src/Listener.antt =====
-- src/listener: the listeners and the interface to the decoders.
pub mod Api
pub mod Http
pub mod Socket
