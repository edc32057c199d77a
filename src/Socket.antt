-- ===== src/Socket.antt =====
-- backend/src/transport/Socket*: frames over a stream socket, to one client.
pub mod Wire
pub mod Stream
pub mod Server
pub mod Client
pub mod Bytes
pub mod Transfer
pub mod Roundtrip
pub mod Delivery
pub mod Faults
mod Tests
