-- ===== src/Manager.antt =====
-- backend/src/processing/ProcessingManager.{h,cpp}: from a raw depth frame to a world frame.
pub mod Points
pub mod Counts
pub mod Gate
pub mod Streaks
pub mod Metrics
pub mod Kernels
pub mod Stages
pub mod Layers
pub mod Frame
pub mod Sizes
pub mod Runs
pub mod Produced
pub mod Ready
pub mod Whole
pub mod Doubled
pub mod Tests
