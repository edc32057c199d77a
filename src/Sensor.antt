-- ===== src/Sensor.antt =====
-- backend/src/hal: the sensors that need no hardware, and the recorder of frames.
pub mod Data
pub mod Recorder
pub mod Loader
pub mod Recording
pub mod Replay
pub mod Synthetic
pub mod Counters
pub mod Stopping
pub mod Playback
pub mod Rounds
pub mod Passes
mod Tests
