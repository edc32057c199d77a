-- ===== src/Calibration.antt =====
-- backend/src/tools/calibration/CalibrationTypes.h and SensorCalibration.{h,cpp}.
pub mod Plane
pub mod Collect
pub mod Interactive
pub mod Farthest
pub mod Success
mod Tests
