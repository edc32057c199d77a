-- ===== src/Fifo.antt =====
-- backend/src/transport/FifoManager.{h,cpp}: lines of text through a named pipe.
pub mod Pipe
pub mod Lines
mod Tests
