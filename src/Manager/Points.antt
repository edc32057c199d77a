-- ===== src/Manager/Points.antt =====
-- `buildAndValidatePointCloud` and `TransformParameters::validatePoint`. A cloud
-- whose size no `int` holds is a fault.
use caldera_sandbox.Base.{
  ℕ, zero, suc, ◌+◌, ◌/◌, ◌%◌, Bool, true, false, not, ◌&&◌, Option, none, some, List, [], ◌∷◌,
  ◌==◌, if◌then◌else◌, ◌>>=◌,
}
use caldera_sandbox.Base.Int.{pos_part, int_area}
use caldera_sandbox.Base.Words.{inc32}
use caldera_sandbox.Base.Float.{Float}
use caldera_sandbox.Sensor.Data.{RawDepthFrame}
use caldera_sandbox.Temporal.Cloud.{Point3D, InternalPointCloud}

pub record Plane (F : Type 0) : Type 0 where
  pub a : F
  pub b : F
  pub c : F
  pub d : F

-- The planes that bound valid points, once they are known.
pub record TransformParameters (F : Type 0) : Type 0 where
  pub min_valid_plane : Plane F
  pub max_valid_plane : Plane F

pub record FrameValidationSummary : Type 0 where
  pub valid : ℕ
  pub invalid : ℕ

module _ {F : Type 0} ⦃f : Float F⦄ where
  open f use {of_ℕ, ratio, add, sub, mul, le, is_finite, nan}

  unfoldable pub plane_value : Plane F → F → F → F → F
  plane_value p x y z = add (add (add (mul p.a x) (mul p.b y)) (mul p.c z)) p.d

  unfoldable pub validate_point : TransformParameters F → F → F → F → Bool
  unfolding plane_value
  validate_point t x y z =
      le (ratio 0 1) (plane_value t.min_valid_plane x y z)
      && le (plane_value t.max_valid_plane x y z) (ratio 0 1)

  -- The place of pixel `idx` about the middle of the frame.
  unfoldable pub centred : ℕ → ℕ → ℕ → F × F
  centred w h idx = (
    mul (sub (of_ℕ (idx % w)) (mul (sub (of_ℕ w) (ratio 1 1)) (ratio 1 2))) (ratio 1 1),
    mul (sub (of_ℕ (idx / w)) (mul (sub (of_ℕ h) (ratio 1 1)) (ratio 1 2))) (ratio 1 1),
  )

  unfoldable pub is_valid : Option (TransformParameters F) → F → F → F → ℕ → Bool
  unfolding validate_point
  is_valid planes wx wy z depth =
      not (depth == 0)
      && is_finite z
      && elim planes [ none ↦ true | some t ↦ validate_point t wx wy z ]

  unfoldable pub build_point : Option (TransformParameters F) → F → ℕ → ℕ → ℕ → Option ℕ → Point3D F
  unfolding centred is_valid
  build_point planes scale w h idx none =
      let (wx, wy) = centred w h idx in record { x = wx; y = wy; z = ratio 0 1; valid = false }
  build_point planes scale w h idx (some depth) =
      let (wx, wy) = centred w h idx in
      let z = if depth == 0 then ratio 0 1 else mul (of_ℕ depth) scale in
      if is_valid planes wx wy z depth
      then record { x = wx; y = wy; z = z; valid = true }
      else record { x = wx; y = wy; z = nan; valid = false }

  unfoldable pub count_point : Point3D F → FrameValidationSummary → FrameValidationSummary
  count_point p s =
      if p.valid then record s { valid = inc32 s.valid } else record s { invalid = inc32 s.invalid }

  -- The pixels from the `idx`-th on, of which `left` are to come; missing depths are padded.
  unfoldable pub build_points :
      Option (TransformParameters F)
      → F
      → ℕ
      → ℕ
      → ℕ
      → ℕ
      → List ℕ
      → FrameValidationSummary
      → List (Point3D F) × FrameValidationSummary
  unfolding build_point count_point
  build_points planes scale w h idx zero depths s = ([], s)
  build_points planes scale w h idx (suc left) [] s =
      let p = build_point planes scale w h idx none in
      let (ps, s') = build_points planes scale w h (idx + 1) left [] (count_point p s) in
      (p ∷ ps, s')
  build_points planes scale w h idx (suc left) (depth ∷ depths) s =
      let p = build_point planes scale w h idx (some depth) in
      let (ps, s') = build_points planes scale w h (idx + 1) left depths (count_point p s) in
      (p ∷ ps, s')

  unfoldable pub build_and_validate_point_cloud :
      Option (TransformParameters F)
      → F
      → RawDepthFrame
      → Option (InternalPointCloud F × FrameValidationSummary)
  unfolding build_points int_area
  build_and_validate_point_cloud planes scale raw = int_area raw.width raw.height >>= λ n.
      (let (ps, s) =
          build_points planes scale (pos_part raw.width) (pos_part raw.height) 0 n raw.samples
            (record { valid = 0; invalid = 0 }) in
        some (
          record {
            timestamp_ns = raw.timestamp_ns;
            width = raw.width;
            height = raw.height;
            points = ps;
          },
          s,
        ))

  -- The count that replaces the summary's.
  unfoldable pub recalculated_invalid : List (Point3D F) → ℕ → ℕ
  recalculated_invalid [] count = count
  recalculated_invalid (p ∷ ps) count =
      recalculated_invalid ps (if p.valid && is_finite p.z then count else inc32 count)
