-- ===== src/Fusion.antt =====
-- backend/src/processing/FusionAccumulator.h: the layers of one frame, and the map made of them.
pub mod Accumulator
pub mod Rows
pub mod Output
pub mod Frame
mod Tests
