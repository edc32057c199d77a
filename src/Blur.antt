-- ===== src/Blur.antt =====
-- backend/src/processing/FastGaussianBlur.{h,cpp}.
pub mod Passes
pub mod Gaussian
pub mod Bounds
pub mod Lines
pub mod Whole
mod Tests
