-- ===== src/Transform.antt =====
-- backend/src/processing/CoordinateTransform.{h,cpp} and DepthCorrector.{h,cpp}.
pub mod Coordinates
pub mod Corrector
pub mod Placed
pub mod Corrected
mod Tests
