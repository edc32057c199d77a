-- ===== src/Calibration/Success.antt =====
-- What a successful calibration says of its points and its plane.
use caldera_sandbox.Base.{
  ℕ, ◌+◌, ◌*◌, ◌≤◌, ◌<◌, ◌≡◌, ◌≢◌, get_elem?, true, false, some, List, All, length,
}
use caldera_sandbox.Base.Int.{pos_part}
use caldera_sandbox.Base.Float.{Float}
use caldera_sandbox.Sensor.Data.{RawDepthFrame}
use caldera_sandbox.Temporal.Cloud.{Point3D}
use caldera_sandbox.Calibration.Plane.{PlaneCalibrationData, CalibrationConfig, distance}
use caldera_sandbox.Calibration.Collect.{point_of}
use caldera_sandbox.Calibration.Farthest.{IsOrder}

module _ {F : Type 0} ⦃f : Float F⦄ where
  open f use {lt, ratio}

  module _ (latest : ℕ → RawDepthFrame) where
    -- A point of a pixel with a depth, inside one of the frames.
    pub record IsSample (p : Point3D F) : Type 0 where
      pub k : ℕ
      pub x : ℕ
      pub y : ℕ
      pub depth : ℕ
      pub inside_x : x < pos_part (latest k).width
      pub inside_y : y < pos_part (latest k).height
      pub read : get_elem? (latest k).samples (y * pos_part (latest k).width + x) ≡ some depth
      pub deep : depth ≢ 0
      pub made : point_of x y (latest k) depth ≡ p

    -- Points that are taken, of which there are not too many.
    record IsTaken (wanted : ℕ) (ps : List (Point3D F)) : Type 0 where
      few : length ps ≤ wanted
      samples : All IsSample ps

  module _ (order : IsOrder f) (sqrt neg : F → F) where
    -- A calibration that is judged good.
    pub record IsGood (config : CalibrationConfig F) (r : PlaneCalibrationData F) : Type 0 where
      pub marked : r.is_valid_calibration ≡ true
      pub near : lt r.max_distance_to_plane config.max_distance_to_plane ≡ true
      pub near_mean : lt r.avg_distance_to_plane config.max_avg_distance_to_plane ≡ true
      pub tight : lt config.min_plane_fit_r_squared r.plane_fit_r_squared ≡ true
      pub bounded :
          All
            (λ p. lt r.max_distance_to_plane (distance sqrt neg r.base_plane p) ≡ false)
            r.collected_points
