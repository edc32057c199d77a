-- ===== src/Transform/Coordinates.antt =====
-- `CoordinateTransform`. A sensor type is its text. `neg` is the change of sign. A
-- cloud whose size no `int` holds is a fault, `none`, and so is a read past the end of a frame's data.
use caldera_sandbox.Base.{
  ℕ, zero, suc, ◌+◌, ◌/◌, ◌%◌, Bool, true, false, not, ◌||◌, Option, some, List, [], ◌∷◌, ltb,
  if◌then◌else◌, get_elem?, ◌>>=◌,
}
use caldera_sandbox.Base.Int.{int_area, ℤ, pos_part}
use caldera_sandbox.Base.Float.{Float}
use caldera_sandbox.Base.Text.{codes, same_text}
use caldera_sandbox.Temporal.Cloud.{Point3D, InternalPointCloud}
use caldera_sandbox.Manager.Points.{Plane, TransformParameters, validate_point}
use caldera_sandbox.Calibration.Plane.{PlaneEquation, larger}

pub record DepthFrame (F : Type 0) : Type 0 where
  pub sensor_id : ℕ
  pub timestamp_ns : ℕ
  pub width : ℤ
  pub height : ℤ
  pub samples : List F

pub record Intrinsics (F : Type 0) : Type 0 where
  pub focal_length_x : F
  pub focal_length_y : F
  pub principal_point_x : F
  pub principal_point_y : F
  pub depth_scale : F
  pub depth_offset : F

-- A row of the rotation matrix.
pub record Row (F : Type 0) : Type 0 where
  pub r0 : F
  pub r1 : F
  pub r2 : F

pub record CoordinateTransform (F : Type 0) : Type 0 where
  pub intrinsics : Intrinsics F
  pub base_plane : PlaneEquation F
  pub sensor_position : Point3D F
  pub row_x : Row F
  pub row_y : Row F
  pub row_z : Row F
  pub valid_planes : TransformParameters F
  pub sensor_id : ℕ
  pub is_configured : Bool

module _ {F : Type 0} ⦃f : Float F⦄ where
  open f use {of_ℕ, ratio, add, sub, mul, div, abs, lt, le, is_finite}

  abbrev pub no_point : Point3D F
  no_point = record { x = ratio 0 1; y = ratio 0 1; z = ratio 0 1; valid = false }

  abbrev zero_plane : Plane F
  zero_plane = record { a = ratio 0 1; b = ratio 0 1; c = ratio 0 1; d = ratio 0 1 }

  -- Everything is set to 0 but the rotation.
  unfoldable pub create : CoordinateTransform F
  create = record {
    intrinsics = record {
      focal_length_x = ratio 0 1;
      focal_length_y = ratio 0 1;
      principal_point_x = ratio 0 1;
      principal_point_y = ratio 0 1;
      depth_scale = ratio 0 1;
      depth_offset = ratio 0 1;
    };
    base_plane = record { a = ratio 0 1; b = ratio 0 1; c = ratio 0 1; d = ratio 0 1 };
    sensor_position = no_point;
    row_x = record { r0 = ratio 1 1; r1 = ratio 0 1; r2 = ratio 0 1 };
    row_y = record { r0 = ratio 0 1; r1 = ratio 1 1; r2 = ratio 0 1 };
    row_z = record { r0 = ratio 0 1; r1 = ratio 0 1; r2 = ratio 1 1 };
    valid_planes = record { min_valid_plane = zero_plane; max_valid_plane = zero_plane };
    sensor_id = 0;
    is_configured = false;
  }

  unfoldable pub default_parameters : List ℕ → Intrinsics F
  unfolding same_text
  default_parameters sensor_type =
      if same_text sensor_type (codes "kinect-v1")
      then record {
        focal_length_x = ratio 59421 100;
        focal_length_y = ratio 59104 100;
        principal_point_x = ratio 3195 10;
        principal_point_y = ratio 2395 10;
        depth_scale = ratio 1 1000;
        depth_offset = ratio 0 1;
      }
      else (if same_text sensor_type (codes "kinect-v2")
          then record {
            focal_length_x = ratio 365456 1000;
            focal_length_y = ratio 365456 1000;
            principal_point_x = ratio 257 1;
            principal_point_y = ratio 210 1;
            depth_scale = ratio 1 1000;
            depth_offset = ratio 0 1;
          }
          else record {
            focal_length_x = ratio 500 1;
            focal_length_y = ratio 500 1;
            principal_point_x = ratio 320 1;
            principal_point_y = ratio 240 1;
            depth_scale = ratio 1 1000;
            depth_offset = ratio 0 1;
          })

  -- The least and the greatest height that is accepted, from the height of the base plane.
  unfoldable pub allowed_band : F → F × F
  allowed_band base =
      if lt base (ratio 5 100)
      then (ratio 0 1, ratio 2 1)
      else (if lt (abs (sub base (ratio 5 10))) (ratio 2 10)
          then (add base (ratio 15 100), add base (ratio 95 100))
          else (add base (ratio 10 100), add base (ratio 120 100)))

  unfoldable pub load_from_calibration :
      (F → F) → ℕ → List ℕ → PlaneEquation F → CoordinateTransform F → CoordinateTransform F
  unfolding default_parameters allowed_band larger
  load_from_calibration neg id sensor_type plane t =
      let base = div (neg plane.d) (larger (ratio 1 10_000) plane.c) in
      let (least, greatest) = allowed_band base in
      record t {
        intrinsics = default_parameters sensor_type;
        base_plane = plane;
        valid_planes = record {
          min_valid_plane = record { a = ratio 0 1; b = ratio 0 1; c = ratio 1 1; d = neg least };
          max_valid_plane = record {
            a = ratio 0 1;
            b = ratio 0 1;
            c = ratio 1 1;
            d = neg greatest;
          };
        };
        sensor_position = record { x = ratio 0 1; y = ratio 0 1; z = ratio 0 1; valid = true };
        sensor_id = id;
        is_configured = true;
      }

  unfoldable pub pixel_to_camera : Intrinsics F → ℕ → ℕ → F → Point3D F
  pixel_to_camera i x y depth = record {
    x = mul (div (sub (of_ℕ x) i.principal_point_x) i.focal_length_x) depth;
    y = mul (div (sub (of_ℕ y) i.principal_point_y) i.focal_length_y) depth;
    z = depth;
    valid = true;
  }

  unfoldable pub rotated : Row F → Point3D F → F
  rotated r p = add (add (mul r.r0 p.x) (mul r.r1 p.y)) (mul r.r2 p.z)

  unfoldable pub camera_to_world : CoordinateTransform F → Point3D F → Point3D F
  unfolding rotated
  camera_to_world t p = record {
    x = add (rotated t.row_x p) t.sensor_position.x;
    y = add (rotated t.row_y p) t.sensor_position.y;
    z = add (rotated t.row_z p) t.sensor_position.z;
    valid = p.valid;
  }

  -- The point is within the bounds, or it is rejected.
  unfoldable pub checked : TransformParameters F → Point3D F → Point3D F
  unfolding validate_point
  checked planes p =
      if not (is_finite p.x) || not (is_finite p.y) || not (is_finite p.z)
      then no_point
      else (if not (validate_point planes p.x p.y p.z) then no_point else p)

  unfoldable pub transform_pixel : CoordinateTransform F → ℕ → ℕ → F → Point3D F
  unfolding pixel_to_camera camera_to_world checked
  transform_pixel t x y depth =
      if not t.is_configured
      then no_point
      else (if le depth (ratio 0 1) || not (is_finite depth)
          then no_point
          else checked t.valid_planes (
              camera_to_world t (
                pixel_to_camera t.intrinsics x y
                  (add (mul depth t.intrinsics.depth_scale) t.intrinsics.depth_offset))))

  -- The points of `left` pixels from the `idx`-th on.
  unfoldable pub transform_points :
      CoordinateTransform F → ℕ → List F → ℕ → ℕ → Option (List (Point3D F))
  unfolding transform_pixel
  transform_points t w samples zero idx = some []
  transform_points t w samples (suc left) idx = get_elem? samples idx >>= λ depth.
      transform_points t w samples left (idx + 1) >>= λ ps.
      some (transform_pixel t (idx % w) (idx / w) depth ∷ ps)

  unfoldable pub count_valid : List (Point3D F) → ℕ
  count_valid [] = 0
  count_valid (p ∷ ps) = if p.valid then suc (count_valid ps) else count_valid ps

  unfoldable pub transform_frame :
      CoordinateTransform F
      → DepthFrame F
      → InternalPointCloud F
      → Option (Bool × InternalPointCloud F)
  unfolding transform_points count_valid int_area
  transform_frame t frame cloud =
      if not t.is_configured
      then some (false, cloud)
      else (int_area frame.width frame.height >>= λ n.
          transform_points t (pos_part frame.width) frame.samples n 0 >>= λ ps. some (
            ltb 0 (count_valid ps),
            record {
              timestamp_ns = frame.timestamp_ns;
              points = ps;
              width = frame.width;
              height = frame.height;
            },
          ))

  -- Called by no code.
  unfoldable pub project_onto_base_plane : CoordinateTransform F → Point3D F → Point3D F
  project_onto_base_plane t p =
      let n = t.base_plane in
      let size = add (add (mul n.a n.a) (mul n.b n.b)) (mul n.c n.c) in
      let far = div (add (add (add (mul n.a p.x) (mul n.b p.y)) (mul n.c p.z)) n.d) size in
      if lt size (ratio 1 1_000_000) then p else record {
        x = sub p.x (mul far n.a);
        y = sub p.y (mul far n.b);
        z = sub p.z (mul far n.c);
        valid = p.valid;
      }
