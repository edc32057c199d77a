-- ===== src/Temporal.antt =====
-- backend/src/processing/TemporalFilter.{h,cpp}: the temporal filter of height maps.
pub mod Pixel
pub mod Filter
pub mod Window
pub mod Consistent
pub mod Frames
pub mod Fresh
pub mod Counts
pub mod Cloud
pub mod Runs
pub mod Statistics
mod Tests
