-- ===== src/Calibration/Tests.antt =====
-- A calibration on a flat surface, one metre from the sensor.
use caldera_sandbox.Base.{ℕ, ◌≡◌, refl, true, false, none, some, [], arith, replicate}
use caldera_sandbox.Base.Int.{pos}
use caldera_sandbox.Base.Fixed.{Fixed, fixed_float}
use caldera_sandbox.Sensor.Data.{RawDepthFrame}
use caldera_sandbox.Calibration.Plane.{PlaneCalibrationData, CalibrationConfig}
use caldera_sandbox.Calibration.Farthest.{IsOrder}

fixed_irrefl : (a : Fixed) → fixed_float.lt a a ≡ false
fixed_irrefl none = refl
fixed_irrefl (some a) = ground arith

fixed_trans :
    (a b c : Fixed)
    → fixed_float.lt a b ≡ true
    → fixed_float.lt b c ≡ true
    → fixed_float.lt a c ≡ true
fixed_trans none b c h k = cc
fixed_trans (some a) none c h k = cc
fixed_trans (some a) (some b) none h k = cc
fixed_trans (some a) (some b) (some c) h k = ground arith

pub fixed-IsOrder : IsOrder fixed_float
fixed-IsOrder = record { lt_irrefl = fixed_irrefl; lt_trans = fixed_trans }

abbrev flat : RawDepthFrame
flat = record {
  sensor_id = 1;
  timestamp_ns = 5;
  width = pos 16;
  height = pos 16;
  samples = replicate 256 1000;
}

abbrev strict : CalibrationConfig Fixed
strict = record {
  min_points_required = 4;
  max_avg_distance_to_plane = some (pos 20_000);
  max_distance_to_plane = some (pos 50_000);
  min_plane_fit_r_squared = some (pos 600_000);
}

abbrev blank : PlaneCalibrationData Fixed
blank = record {
  sensor_id = 0;
  timestamp = 0;
  collected_points = [];
  base_plane = record { a = none; b = none; c = none; d = none };
  avg_distance_to_plane = none;
  max_distance_to_plane = none;
  plane_fit_r_squared = none;
  is_valid_calibration = false;
}

-- The square root of 1, and the change of sign.
abbrev same : Fixed → Fixed
same x = x

abbrev minus : Fixed → Fixed
minus x = fixed_float.sub (some (pos 0)) x

abbrev two : ℕ → ℕ
two n = 2
