-- ===== src/Calibration/Plane.antt =====
-- Planes, and the fit of a horizontal one to points. `sqrt` is `std::sqrt` and `neg` the sign's change. The
-- image points, which no code writes, are left out.
use caldera_sandbox.Base.{
  ℕ, Bool, ◌&&◌, Option, none, some, List, [], ◌∷◌, ltb, if◌then◌else◌, length,
}
use caldera_sandbox.Base.Float.{Float}
use caldera_sandbox.Temporal.Cloud.{Point3D}

pub record PlaneEquation (F : Type 0) : Type 0 where
  pub a : F
  pub b : F
  pub c : F
  pub d : F

pub record PlaneCalibrationData (F : Type 0) : Type 0 where
  pub sensor_id : ℕ
  pub timestamp : ℕ
  pub collected_points : List (Point3D F)
  pub base_plane : PlaneEquation F
  pub avg_distance_to_plane : F
  pub max_distance_to_plane : F
  pub plane_fit_r_squared : F
  pub is_valid_calibration : Bool

pub data CalibrationResult : Type 0 where
  success insufficient_points poor_plane_fit sensor_not_available : CalibrationResult

-- The members that the code reads; `minPointsRequired` is not negative.
pub record CalibrationConfig (F : Type 0) : Type 0 where
  pub min_points_required : ℕ
  pub max_avg_distance_to_plane : F
  pub max_distance_to_plane : F
  pub min_plane_fit_r_squared : F

-- What `fitPlaneToPoints` writes.
pub record Fit (F : Type 0) : Type 0 where
  pub plane : PlaneEquation F
  pub avg_distance : F
  pub max_distance : F
  pub r_squared : F

module _ {F : Type 0} ⦃f : Float F⦄ where
  open f use {of_ℕ, ratio, add, sub, mul, div, abs, eq, lt}

  -- `std::max` and `std::min`.
  unfoldable pub larger : F → F → F
  larger a b = if lt a b then b else a

  unfoldable pub smaller : F → F → F
  smaller a b = if lt b a then b else a

  unfoldable pub evaluate_point : PlaneEquation F → Point3D F → F
  evaluate_point p q = add (add (add (mul p.a q.x) (mul p.b q.y)) (mul p.c q.z)) p.d

  unfoldable pub sum_heights : F → List (Point3D F) → F
  sum_heights acc [] = acc
  sum_heights acc (p ∷ ps) = sum_heights (add acc p.z) ps

  unfoldable pub lowest : F → List (Point3D F) → F
  unfolding smaller
  lowest z [] = z
  lowest z (p ∷ ps) = lowest (smaller z p.z) ps

  unfoldable pub highest : F → List (Point3D F) → F
  unfolding larger
  highest z [] = z
  highest z (p ∷ ps) = highest (larger z p.z) ps

  unfoldable pub sum_squares : F → F → List (Point3D F) → F
  sum_squares mean acc [] = acc
  sum_squares mean acc (p ∷ ps) = sum_squares mean (add acc (mul (sub p.z mean) (sub p.z mean))) ps

  module _ (sqrt neg : F → F) where
    unfoldable pub distance_to_point : PlaneEquation F → Point3D F → F
    unfolding evaluate_point
    distance_to_point p q =
        let norm = sqrt (add (add (mul p.a p.a) (mul p.b p.b)) (mul p.c p.c)) in
        if eq norm (ratio 0 1) then ratio 0 1 else div (abs (evaluate_point p q)) norm

    unfoldable pub distance : PlaneEquation F → Point3D F → F
    unfolding distance_to_point
    distance p q = abs (distance_to_point p q)

    unfoldable pub sum_distances : PlaneEquation F → F → List (Point3D F) → F
    unfolding distance
    sum_distances plane acc [] = acc
    sum_distances plane acc (p ∷ ps) = sum_distances plane (add acc (distance plane p)) ps

    unfoldable pub farthest : PlaneEquation F → F → List (Point3D F) → F
    unfolding distance larger
    farthest plane m [] = m
    farthest plane m (p ∷ ps) = farthest plane (larger m (distance plane p)) ps

    -- The quality of points whose heights spread over `z_range` with `variance`.
    unfoldable pub r_squared_of : F → F → F
    unfolding smaller
    r_squared_of z_range variance =
        let noise = ratio 1 100 in
        if lt z_range noise && lt variance (mul noise noise)
        then ratio 99 100
        else sub (ratio 1 1) (smaller (ratio 1 1) (div variance (mul noise noise)))

    -- The fit to points, the first of which is `p`.
    unfoldable pub fit_from : Point3D F → List (Point3D F) → Fit F
    unfolding sum_heights sum_distances farthest lowest highest sum_squares r_squared_of
    fit_from p ps =
        let n = of_ℕ (length ps) in
        let mean = div (sum_heights (ratio 0 1) ps) n in
        let plane : PlaneEquation F = record {
          a = ratio 0 1;
          b = ratio 0 1;
          c = ratio 1 1;
          d = neg mean;
        } in
        record {
          plane = plane;
          avg_distance = div (sum_distances plane (ratio 0 1) ps) n;
          max_distance = farthest plane (ratio 0 1) ps;
          r_squared =
              r_squared_of (sub (highest p.z ps) (lowest p.z ps))
                (div (sum_squares mean (ratio 0 1) ps) n);
        }

    unfoldable pub fit_plane_to_points : List (Point3D F) → Option (Fit F)
    unfolding fit_from
    fit_plane_to_points [] = none
    fit_plane_to_points (p ∷ ps) =
        if ltb (length (p ∷ ps)) 3 then none else some (fit_from p (p ∷ ps))

  unfoldable pub validate_calibration_quality : PlaneCalibrationData F → CalibrationConfig F → Bool
  validate_calibration_quality r config =
      lt r.avg_distance_to_plane config.max_avg_distance_to_plane
      && lt r.max_distance_to_plane config.max_distance_to_plane
      && lt config.min_plane_fit_r_squared r.plane_fit_r_squared
