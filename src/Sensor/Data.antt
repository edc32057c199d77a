-- ===== src/Sensor/Data.antt =====
-- The raw frames of backend/src/common/DataTypes.h. A sensor is known by a number.
use caldera_sandbox.Base.{ℕ, List}
use caldera_sandbox.Base.Int.{ℤ}

-- `samples` are the 16-bit depths.
pub record RawDepthFrame : Type 0 where
  pub sensor_id : ℕ
  pub timestamp_ns : ℕ
  pub width : ℤ
  pub height : ℤ
  pub samples : List ℕ

pub record RawColorFrame : Type 0 where
  pub sensor_id : ℕ
  pub timestamp_ns : ℕ
  pub width : ℤ
  pub height : ℤ
  pub samples : List ℕ
