-- ===== src/Transform/Tests.antt =====
-- A row of four depths, and a profile of a sensor.
use caldera_sandbox.Base.{
  zero, suc, length-replicate, ℕ, ◌+◌, ◌*◌, ◌≡◌, refl, Bool, none, some, List, [], ◌∷◌, All, arith,
  length, replicate,
}
use caldera_sandbox.Base.Int.{pos, negsuc}
use caldera_sandbox.Base.Text.{codes}
use caldera_sandbox.Base.Fixed.{Fixed, fixed_float}
use caldera_sandbox.Sensor.Data.{RawDepthFrame}
use caldera_sandbox.Temporal.Cloud.{InternalPointCloud}
use caldera_sandbox.Transform.Coordinates.{
  DepthFrame, CoordinateTransform, create, load_from_calibration, transform_frame,
}
use caldera_sandbox.Transform.Corrector.{
  create_profile, correct_frame, frame_size, to_u16, radial_correction,
}
use caldera_sandbox.Transform.Placed.{IsPlaced, Counted, transform_frame-IsPlaced}
use caldera_sandbox.Transform.Corrected.{Convertible, IsImage, correct_frame-IsImage}

-- A horizontal plane half a metre from the sensor.
abbrev loaded : CoordinateTransform Fixed
loaded =
    load_from_calibration (fixed_float.sub (some (pos 0))) 1 (codes "kinect-v1")
      (record {
        a = some (pos 0);
        b = some (pos 0);
        c = some (pos 1_000_000);
        d = some (negsuc 499_999);
      })
      create

abbrev frame_4 : DepthFrame Fixed
frame_4 = record {
  sensor_id = 1;
  timestamp_ns = 8;
  width = pos 2;
  height = pos 2;
  samples = some (pos 900_000_000) ∷ some (pos 600_000_000) ∷ none ∷ some (pos 0) ∷ [];
}

abbrev no_cloud : InternalPointCloud Fixed
no_cloud = record { timestamp_ns = 0; points = []; width = pos 0; height = pos 0 }

transform_frame-IsPlaced_example :
    (b : Bool) × (out : InternalPointCloud Fixed) × (transform_frame loaded frame_4 no_cloud
      ≡ some (b, out))
    × (length out.points ≡ 2 * 2)
    × All (IsPlaced loaded.valid_planes) out.points
    × Counted b out.points
unfolding load_from_calibration
transform_frame-IsPlaced_example =
    transform_frame-IsPlaced loaded frame_4 no_cloud 2 2 refl refl refl (omega arith) (omega arith)

-- One metre everywhere, with the factor 1.001 for every pixel.
abbrev half : Fixed → Fixed
half x = some (pos 500_000)

abbrev same : Fixed → Fixed
same x = x

thousands-Convertible : (n idx : ℕ) → Convertible half same 512 424 idx (replicate n 1000)
unfolding to_u16 radial_correction
thousands-Convertible zero idx = tt
thousands-Convertible (suc n) idx = ((1001, refl), thousands-Convertible n (idx + 1))

abbrev flat : RawDepthFrame
flat = record {
  sensor_id = 1;
  timestamp_ns = 5;
  width = pos 512;
  height = pos 424;
  samples = replicate (512 * 424) 1000;
}

correct_frame-IsImage_example :
    (ds : List ℕ) × (correct_frame same (create_profile half 1 (codes "kinect-v2")) flat
      ≡ some (record flat { samples = ds }))
    × IsImage half same 512 424 0 (replicate (512 * 424) 1000) ds
unfolding frame_size
correct_frame-IsImage_example =
    correct_frame-IsImage half same 1 (codes "kinect-v2") 512 424 flat refl refl refl
      (length-replicate {A = ℕ} (512 * 424) 1000) (thousands-Convertible (512 * 424) 0)
