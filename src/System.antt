-- ===== src/System.antt =====
-- backend/src/processing and backend/src/transport together: a raw frame that is processed and sent.
pub mod Pipeline
mod Tests
