-- ===== src/Shm.antt =====
-- backend/src/transport/SharedMemory*: the shared-memory transport of world frames, double-buffered.
pub mod Segment
pub mod Memory
pub mod Server
pub mod Send
pub mod Reader
pub mod Publish
pub mod Atomic
pub mod Lifecycle
pub mod Delivery
pub mod Client
pub mod Checks
pub mod Faults
pub mod Refused
pub mod Tests
