-- ===== src/Spatial.antt =====
-- backend/src/processing/SpatialFilter.h: smoothing of a height map by a separable kernel.
pub mod Kernel
pub mod Holes
mod Tests
