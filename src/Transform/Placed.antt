-- ===== src/Transform/Placed.antt =====
-- The points of a transformed frame are in their bounds.
use caldera_sandbox.Base.{
  ◌<◌, ℕ, zero, suc, ◌+◌, ◌*◌, ◌/◌, ◌%◌, ◌≤◌, ◌≡◌, refl, sym, ap, ◌⊎◌, inl, inr, Bool, true, false,
  not, ◌||◌, Bool-cases, some, List, [], ◌∷◌, All, arith, length, ltb, get_elem?, get_elem?-some,
  if-either,
}
use mathlib.Core.Path.{subst}
use caldera_sandbox.Base.Int.{pos, int_limit, int_index-some, int_area}
use caldera_sandbox.Base.Float.{Float}
use caldera_sandbox.Temporal.Cloud.{Point3D, InternalPointCloud}
use caldera_sandbox.Manager.Points.{TransformParameters, validate_point}
use caldera_sandbox.Transform.Coordinates.{
  DepthFrame, CoordinateTransform, no_point, pixel_to_camera, camera_to_world, checked,
  transform_pixel, transform_points, count_valid, transform_frame,
}

not_all : (a b c : Bool) → (not a || not b || not c) ≡ false → (a ≡ true) × (b ≡ true) × (c ≡ true)
not_all true true true e = (refl, refl, refl)
not_all true true false e = cc
not_all true false c e = cc
not_all false b c e = cc

not-false : (b : Bool) → not b ≡ false → b ≡ true
not-false true e = refl
not-false false e = cc

module _ {F : Type 0} ⦃f : Float F⦄ where
  open f use {is_finite, le, ratio, add, mul}

  -- A valid point with finite coordinates between the planes.
  pub record IsWithin (planes : TransformParameters F) (p : Point3D F) : Type 0 where
    pub marked : p.valid ≡ true
    pub finite_x : is_finite p.x ≡ true
    pub finite_y : is_finite p.y ≡ true
    pub finite_z : is_finite p.z ≡ true
    pub between : validate_point planes p.x p.y p.z ≡ true

  -- A point is within the planes, or it is the point 0 with the mark `false`.
  abbrev pub IsPlaced : TransformParameters F → Point3D F → Type 0
  IsPlaced planes p = IsWithin planes p ⊎ (p ≡ no_point)

  checked-IsPlaced :
      (planes : TransformParameters F) (p : Point3D F)
      → p.valid ≡ true
      → IsPlaced planes (checked planes p)
  unfolding checked
  checked-IsPlaced planes p marked =
      elim (Bool-cases (not (is_finite p.x) || not (is_finite p.y) || not (is_finite p.z))) [
        | inl out ↦ rw out (inr refl)
        | inr finite ↦ elim (Bool-cases (not (validate_point planes p.x p.y p.z))) [
          | inl out ↦ rw (finite, out) (inr refl)
          | inr good ↦
              let (fx, fy, fz) = not_all _ _ _ finite in
              rw (finite, good)
                (inl (record {
                  marked = marked;
                  finite_x = fx;
                  finite_y = fy;
                  finite_z = fz;
                  between = not-false _ good;
                }))
        ]
      ]

  transform_pixel-IsPlaced :
      (t : CoordinateTransform F) (x y : ℕ) (depth : F)
      → IsPlaced t.valid_planes (transform_pixel t x y depth)
  unfolding transform_pixel camera_to_world pixel_to_camera
  transform_pixel-IsPlaced t x y depth =
      if-either (IsPlaced t.valid_planes) (not t.is_configured) _ _ (inr refl) (
        if-either (IsPlaced t.valid_planes) (le depth (ratio 0 1) || not (is_finite depth)) _ _
          (inr refl)
          (checked-IsPlaced t.valid_planes
            (camera_to_world t (
              pixel_to_camera t.intrinsics x y
                (add (mul depth t.intrinsics.depth_scale) t.intrinsics.depth_offset)))
            refl))

  -- All pixels that are left are in the data.
  transform_points-some :
      (t : CoordinateTransform F) (w : ℕ) (samples : List F) (left idx : ℕ)
      → idx + left ≤ length samples
      → (ps : List (Point3D F)) × (transform_points t w samples left idx ≡ some ps)
        × (length ps ≡ left)
        × All (IsPlaced t.valid_planes) ps
  unfolding transform_points
  transform_points-some t w samples zero idx h = ([], refl, refl, tt)
  transform_points-some t w samples (suc left) idx h =
      let (depth, got) = get_elem?-some samples idx (omega arith) in
      let (ps, rest, size, placed) =
        transform_points-some t w samples left (idx + 1) (omega arith) in
      (
        transform_pixel t (idx % w) (idx / w) depth ∷ ps,
        rw (transform_points, got, rest) refl,
        ap suc size,
        (transform_pixel-IsPlaced t (idx % w) (idx / w) depth, placed),
      )

  -- A point is marked as valid, or none is.
  abbrev pub Counted : Bool → List (Point3D F) → Type 0
  Counted true ps = (i : ℕ) × (p : Point3D F) × (get_elem? ps i ≡ some p) × (p.valid ≡ true)
  Counted false ps = All (λ p. p.valid ≡ false) ps

  Counted-later :
      (b : Bool) (p : Point3D F) (ps : List (Point3D F))
      → p.valid ≡ false
      → Counted b ps
      → Counted b (p ∷ ps)
  Counted-later true p ps e (i, q, got, marked) = (suc i, q, got, marked)
  Counted-later false p ps e h = (e, h)

  count_valid-Counted : (ps : List (Point3D F)) → Counted (ltb 0 (count_valid ps)) ps
  unfolding count_valid
  count_valid-Counted [] = tt
  count_valid-Counted (p ∷ ps) = elim (Bool-cases p.valid) [
    | inl e ↦
        let one : ltb 0 (count_valid (p ∷ ps)) ≡ true = ground arith in
        subst (λ b. Counted b (p ∷ ps)) (sym one) (0, p, refl, e)
    | inr e ↦
        let later : count_valid (p ∷ ps) ≡ count_valid ps = ground arith in
        subst (λ n. Counted (ltb 0 n) (p ∷ ps)) (sym later)
          (Counted-later (ltb 0 (count_valid ps)) p ps e (count_valid-Counted ps))
  ]

  -- For a configured transformation and a frame with sides that are not negative and whose product is an
  -- `int`, and with at least as many values as that: the cloud has a point for each pixel; each point is
  -- finite, between the two planes and marked as valid, or is the point 0 that is not; and the result is true
  -- when a point is marked and false when none is.
  pub transform_frame-IsPlaced :
      (t : CoordinateTransform F) (frame : DepthFrame F) (cloud : InternalPointCloud F) (w h : ℕ)
      → t.is_configured ≡ true
      → frame.width ≡ pos w
      → frame.height ≡ pos h
      → w * h < int_limit
      → w * h ≤ length frame.samples
      → (b : Bool) × (out : InternalPointCloud F) × (transform_frame t frame cloud ≡ some (b, out))
        × (length out.points ≡ w * h)
        × All (IsPlaced t.valid_planes) out.points
        × Counted b out.points
  unfolding transform_frame int_area
  transform_frame-IsPlaced t frame cloud w h ready width height small enough =
      let (ps, got, size, placed) =
        transform_points-some t w frame.samples (w * h) 0 (omega arith) in
      (
        ltb 0 (count_valid ps),
        record { timestamp_ns = frame.timestamp_ns; points = ps; width = pos w; height = pos h },
        simp (ready, width, height, int_index-some (w * h) small, got),
        size,
        placed,
        count_valid-Counted ps,
      )
