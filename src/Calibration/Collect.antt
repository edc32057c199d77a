-- ===== src/Calibration/Collect.antt =====
-- `convertDepthToWorld` and `collectAutomaticCalibration`. Frames have no negative size. The callback may
-- replace the latest frame between two points: `latest k` is the frame that the `k`-th point is taken from.
-- `ceil_sqrt` is `std::ceil(std::sqrt(n))`.
use caldera_sandbox.Base.{
  ℕ, zero, suc, ◌+◌, ◌-◌, ◌*◌, ◌/◌, min, Bool, false, not, ◌&&◌, Option, none, some, List, [], ◌∷◌,
  ◌++◌, ltb, leb, ◌==◌, if◌then◌else◌, length, get_elem?, ◌>>=◌,
}
use caldera_sandbox.Base.Int.{ℤ, pos, negsuc, pos_part}
use caldera_sandbox.Base.Float.{Float}
use caldera_sandbox.Sensor.Data.{RawDepthFrame}
use caldera_sandbox.Temporal.Cloud.{Point3D}
use caldera_sandbox.Calibration.Plane.{
  PlaneCalibrationData, CalibrationResult, success, insufficient_points, poor_plane_fit,
  sensor_not_available, CalibrationConfig, Fit, fit_plane_to_points, validate_calibration_quality,
}

-- The place of a grid point: `c + (i - g / 2) * (r / g)`.
unfoldable pub grid_place : ℕ → ℕ → ℕ → ℕ → ℤ
grid_place c r g i =
    let right = c + i * (r / g) in
    let left = g / 2 * (r / g) in
    if leb left right then pos (right - left) else negsuc (left - right - 1)

-- The centre, the radius and the size of the grid, and the points that are wanted.
pub record Grid : Type 0 where
  pub center_x : ℕ
  pub center_y : ℕ
  pub radius : ℕ
  pub size : ℕ
  pub wanted : ℕ

module _ {F : Type 0} ⦃f : Float F⦄ where
  open f use {of_ℕ, ratio, sub, mul, div}

  -- The point of a pixel with a depth; the mark `valid` is not written, and is not read.
  unfoldable pub point_of : ℕ → ℕ → RawDepthFrame → ℕ → Point3D F
  point_of x y frame depth =
      let meters = div (of_ℕ depth) (ratio 1000 1) in
      record {
        x =
            div (mul (sub (of_ℕ x) (div (of_ℕ (pos_part frame.width)) (ratio 2 1))) meters)
              (ratio 525 1);
        y =
            div (mul (sub (of_ℕ y) (div (of_ℕ (pos_part frame.height)) (ratio 2 1))) meters)
              (ratio 525 1);
        z = meters;
        valid = false;
      }

  unfoldable pub convert_pixel : RawDepthFrame → ℕ → ℕ → Option (Point3D F)
  unfolding point_of
  convert_pixel frame x y =
      if ltb x (pos_part frame.width) && ltb y (pos_part frame.height)
      then (get_elem? frame.samples (y * pos_part frame.width + x) >>= λ depth.
          if depth == 0 then none else some (point_of x y frame depth))
      else none

  unfoldable pub convert_depth_to_world : RawDepthFrame → ℤ → ℤ → Option (Point3D F)
  unfolding convert_pixel
  convert_depth_to_world frame (pos x) (pos y) = convert_pixel frame x y
  convert_depth_to_world frame (pos x) (negsuc y) = none
  convert_depth_to_world frame (negsuc x) y = none

  abbrev pub push : List (Point3D F) → Option (Point3D F) → List (Point3D F)
  push points none = points
  push points (some p) = points ++ p ∷ []

  module _ (latest : ℕ → RawDepthFrame) (grid : Grid) where
    unfoldable pub take_point : ℕ → ℕ → List (Point3D F) → List (Point3D F)
    unfolding convert_depth_to_world grid_place
    take_point i j points = push points (
        convert_depth_to_world (latest (i * grid.size + j))
          (grid_place grid.center_x grid.radius grid.size i)
          (grid_place grid.center_y grid.radius grid.size j))

    -- The loop over `j` with `left` rounds to go, and the loop over `i`.
    unfoldable pub take_row : ℕ → ℕ → ℕ → List (Point3D F) → List (Point3D F)
    unfolding take_point
    take_row zero i j points = points
    take_row (suc left) i j points =
        let rest = take_row left i (j + 1) (take_point i j points) in
        if ltb (length points) grid.wanted then rest else points

    unfoldable pub take_rows : ℕ → ℕ → List (Point3D F) → List (Point3D F)
    unfolding take_row
    take_rows zero i points = points
    take_rows (suc left) i points =
        let rest = take_rows left (i + 1) (take_row grid.size i 0 points) in
        if ltb (length points) grid.wanted then rest else points

  unfoldable pub grid_of : (ℕ → ℕ) → CalibrationConfig F → RawDepthFrame → Grid
  grid_of ceil_sqrt config frame = record {
    center_x = pos_part frame.width / 2;
    center_y = pos_part frame.height / 2;
    radius = min (pos_part frame.width) (pos_part frame.height) / 8;
    size = ceil_sqrt config.min_points_required;
    wanted = config.min_points_required;
  }

  -- What is written once the plane is fitted, with the verdict.
  unfoldable pub fitted : Fit F → Bool → PlaneCalibrationData F → PlaneCalibrationData F
  fitted fit good r = record r {
    base_plane = fit.plane;
    avg_distance_to_plane = fit.avg_distance;
    max_distance_to_plane = fit.max_distance;
    plane_fit_r_squared = fit.r_squared;
    is_valid_calibration = good;
  }

  unfoldable pub judge_fit :
      CalibrationConfig F
      → Option (Fit F)
      → PlaneCalibrationData F
      → CalibrationResult × PlaneCalibrationData F
  unfolding validate_calibration_quality fitted
  judge_fit config none r = (poor_plane_fit, r)
  judge_fit config (some fit) r =
      let good = validate_calibration_quality (fitted fit r.is_valid_calibration r) config in
      (if good then success else poor_plane_fit, fitted fit good r)

  module _ (sqrt neg : F → F) where
    -- From the points on: fit, metrics, quality. Both ways of calibrating end so.
    unfoldable pub judge :
        CalibrationConfig F → PlaneCalibrationData F → CalibrationResult × PlaneCalibrationData F
    unfolding fit_plane_to_points judge_fit
    judge config r = judge_fit config (fit_plane_to_points sqrt neg r.collected_points) r

    -- After the collection: `ready` is whether the sensor opened and sent a frame, `few` whether there are
    -- too few points.
    unfoldable pub outcome :
        Bool
        → Bool
        → List (Point3D F)
        → ℕ
        → ℕ
        → CalibrationConfig F
        → PlaneCalibrationData F
        → CalibrationResult × PlaneCalibrationData F
    unfolding judge
    outcome ready few points id now config r =
        if not ready
        then (sensor_not_available, r)
        else (if few
            then (insufficient_points, r)
            else judge config
                (record r { sensor_id = id; timestamp = now; collected_points = points }))

    unfoldable pub collect_automatic :
        (ℕ → ℕ)
        → Bool
        → Bool
        → (ℕ → RawDepthFrame)
        → RawDepthFrame
        → ℕ
        → ℕ
        → CalibrationConfig F
        → PlaneCalibrationData F
        → CalibrationResult × PlaneCalibrationData F
    unfolding grid_of take_rows outcome
    collect_automatic ceil_sqrt opens arrives latest first id now config r =
        let grid = grid_of ceil_sqrt config first in
        let points = take_rows latest grid grid.size 0 [] in
        outcome (opens && arrives) (ltb (length points) config.min_points_required) points id now
          config r
