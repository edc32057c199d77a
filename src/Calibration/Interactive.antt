-- ===== src/Calibration/Interactive.antt =====
-- The interactive calibration: `startInteractiveCalibration` and what follows it.
use caldera_sandbox.Base.{
  ℕ, ◌/◌, Bool, true, false, Option, none, some, List, [], ltb, if◌then◌else◌, length,
}
use caldera_sandbox.Base.Int.{pos, pos_part}
use caldera_sandbox.Base.Float.{Float}
use caldera_sandbox.Sensor.Data.{RawDepthFrame}
use caldera_sandbox.Temporal.Cloud.{Point3D}
use caldera_sandbox.Calibration.Plane.{
  PlaneCalibrationData, CalibrationResult, insufficient_points, sensor_not_available,
  CalibrationConfig, fit_plane_to_points,
}
use caldera_sandbox.Calibration.Collect.{convert_depth_to_world, push, judge}

-- The sensor is known by its number, and is open or not.
pub record SensorCalibration (F : Type 0) : Type 0 where
  pub current_sensor : Option ℕ
  pub sensor_open : Bool
  pub interactive_points : List (Point3D F)
  pub latest_depth_frame : Option RawDepthFrame
  pub frame_received : Bool

module _ {F : Type 0} ⦃f : Float F⦄ where
  unfoldable pub on_frame_received : RawDepthFrame → SensorCalibration F → SensorCalibration F
  on_frame_received frame s = record s { latest_depth_frame = some frame; frame_received = true }

  -- Up to the wait for the first frame: `opens` is what opening the sensor answers.
  unfoldable pub start_interactive : ℕ → Bool → SensorCalibration F → Bool × SensorCalibration F
  start_interactive id opens s =
      if opens
      then (
        true,
        record s {
          current_sensor = some id;
          sensor_open = true;
          frame_received = false;
          interactive_points = [];
        },
      )
      else (false, s)

  -- The end of the wait.
  unfoldable pub await_frame : SensorCalibration F → Bool × SensorCalibration F
  await_frame s = if s.frame_received then (true, s) else (false, record s { sensor_open = false })

  unfoldable pub capture :
      Option ℕ
      → Option RawDepthFrame
      → Bool
      → SensorCalibration F
      → Option (Point3D F) × SensorCalibration F
  unfolding convert_depth_to_world
  capture (some id) (some frame) true s =
      let p =
        convert_depth_to_world frame (pos (pos_part frame.width / 2))
          (pos (pos_part frame.height / 2)) in
      (p, record s { interactive_points = push s.interactive_points p })
  capture (some id) (some frame) false s = (none, s)
  capture (some id) none received s = (none, s)
  capture none frame received s = (none, s)

  unfoldable pub capture_point : SensorCalibration F → Option (Point3D F) × SensorCalibration F
  unfolding capture
  capture_point s = capture s.current_sensor s.latest_depth_frame s.frame_received s

  unfoldable pub stop_interactive : SensorCalibration F → SensorCalibration F
  stop_interactive s = elim s.current_sensor [
    | none ↦ record s { interactive_points = []; frame_received = false }
    | some id ↦ record s {
      current_sensor = none;
      sensor_open = false;
      interactive_points = [];
      frame_received = false;
    }
  ]

  module _ (sqrt neg : F → F) where
    unfoldable pub finish_interactive :
        ℕ
        → CalibrationConfig F
        → PlaneCalibrationData F
        → SensorCalibration F
        → CalibrationResult × PlaneCalibrationData F × SensorCalibration F
    unfolding judge
    finish_interactive now config r s = elim s.current_sensor [
      | none ↦ (sensor_not_available, r, s)
      | some id ↦
          if ltb (length s.interactive_points) config.min_points_required
          then (insufficient_points, r, s)
          else (let filled = record r {
            sensor_id = id;
            timestamp = now;
            collected_points = s.interactive_points;
          } in
              let (result, r') = judge sqrt neg config filled in
              let closed : SensorCalibration F =
                elim (fit_plane_to_points sqrt neg s.interactive_points) [
                  | none ↦ s
                  | some fit ↦ record s { current_sensor = none; sensor_open = false }
                ] in
              (result, r', closed))
    ]
