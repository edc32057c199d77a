-- ===== src/Temporal/Cloud.antt =====
-- `TemporalFilter::processFrame`: the filter on a point cloud. Only the height and the mark of a point
-- are changed.
use caldera_sandbox.Base.{
  ℕ, suc, ◌≤◌, ◌≡◌, refl, ap, Bool, ◌&&◌, List, [], ◌∷◌, arith, if◌then◌else◌, length,
}
use caldera_sandbox.Base.Int.{ℤ, to_u32}
use caldera_sandbox.Base.Float.{Float}
use caldera_sandbox.Temporal.Filter.{TemporalFilter, pixels, apply}
use caldera_sandbox.Temporal.Consistent.{IsNumber, IsConsistent}
use caldera_sandbox.Temporal.Frames.{apply-IsConsistent}

pub record Point3D (F : Type 0) : Type 0 where
  pub x : F
  pub y : F
  pub z : F
  pub valid : Bool

pub record InternalPointCloud (F : Type 0) : Type 0 where
  pub timestamp_ns : ℕ
  pub points : List (Point3D F)
  pub width : ℤ
  pub height : ℤ

module _ {F : Type 0} ⦃f : Float F⦄ where
  open f use {nan, is_finite}

  -- The height map of a cloud, with NaN for an invalid point.
  unfoldable pub heights : List (Point3D F) → List F
  heights [] = []
  heights (p ∷ ps) = (if p.valid && is_finite p.z then p.z else nan) ∷ heights ps

  -- The points with new heights; points beyond the map stay.
  unfoldable pub with_heights : List F → List (Point3D F) → List (Point3D F)
  with_heights zs [] = []
  with_heights [] (p ∷ ps) = p ∷ ps
  with_heights (z ∷ zs) (p ∷ ps) = record p { z = z; valid = is_finite z } ∷ with_heights zs ps

  pub length-heights : (ps : List (Point3D F)) → length (heights ps) ≡ length ps
  unfolding heights
  length-heights [] = refl
  length-heights (p ∷ ps) = ap suc (length-heights ps)

  module _ {D : Type 0} ⦃d : Float D⦄ (narrow : D → F) where
    unfoldable pub process_frame :
        InternalPointCloud F → TemporalFilter F → InternalPointCloud F × TemporalFilter F
    unfolding heights with_heights
    process_frame cloud t = elim cloud.points [
      | [] ↦ (cloud, t)
      | p ∷ ps ↦
          let (zs, t') = apply narrow (heights (p ∷ ps)) cloud.width cloud.height t in
          (record cloud { points = with_heights zs (p ∷ ps) }, t')
    ]

    process_points-IsConsistent :
        (cloud : InternalPointCloud F) (ps : List (Point3D F)) (t : TemporalFilter F)
        → cloud.points ≡ ps
        → IsNumber f
        → to_u32 cloud.width ≡ t.width
        → to_u32 cloud.height ≡ t.height
        → pixels t.width t.height ≤ length ps
        → IsConsistent (pixels t.width t.height) t
        → IsConsistent (pixels t.width t.height) (process_frame cloud t).1
    unfolding process_frame
    process_points-IsConsistent cloud [] t e laws same_w same_h enough ok = rw e ok
    process_points-IsConsistent cloud (p ∷ ps) t e laws same_w same_h enough ok = rw e (
        apply-IsConsistent narrow (heights (p ∷ ps)) cloud.width cloud.height t laws same_w same_h
          (omega (arith, length-heights (p ∷ ps))) ok)

    -- A cloud of the filter's size with at least as many points as pixels leaves a consistent filter
    -- consistent.
    pub process_frame-IsConsistent :
        (cloud : InternalPointCloud F) (t : TemporalFilter F)
        → IsNumber f
        → to_u32 cloud.width ≡ t.width
        → to_u32 cloud.height ≡ t.height
        → pixels t.width t.height ≤ length cloud.points
        → IsConsistent (pixels t.width t.height) t
        → IsConsistent (pixels t.width t.height) (process_frame cloud t).1
    process_frame-IsConsistent cloud t laws same_w same_h enough ok =
        process_points-IsConsistent cloud cloud.points t refl laws same_w same_h enough ok
