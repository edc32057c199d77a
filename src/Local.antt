-- ===== src/Local.antt =====
-- backend/src/transport/LocalTransportServer.{h,cpp} and HandshakeServer.{h,cpp}.
pub mod Hello
pub mod Handshake
pub mod Server
pub mod Serving
pub mod Sound
pub mod Stopping
pub mod Arrivals
pub mod Answers
mod Tests
