-- ===== src/Manager/Counts.antt =====
-- Every pixel of a frame is counted once, as valid or as invalid.
use caldera_sandbox.Base.{
  ℕ, zero, suc, ◌+◌, ◌*◌, ◌<◌, ◌≡◌, refl, ap, ◌∙◌, Bool, true, false, ◌&&◌, Bool-cases, inl, inr,
  Option, none, some, List, [], ◌∷◌, arith, length, ◌==◌, if◌then◌else◌,
}
use caldera_sandbox.Base.Int.{pos, int_limit, int_index-some, int_area}
use caldera_sandbox.Base.Words.{u32_mod, inc32}
use caldera_sandbox.Base.Float.{Float}
use caldera_sandbox.Sensor.Data.{RawDepthFrame}
use caldera_sandbox.Temporal.Cloud.{Point3D, InternalPointCloud}
use caldera_sandbox.Manager.Points.{
  TransformParameters, FrameValidationSummary, centred, is_valid, build_point, count_point,
  build_points, build_and_validate_point_cloud, recalculated_invalid,
}

and_middle : (a b c : Bool) → (a && b && c) ≡ true → b ≡ true
and_middle a b c e = ground arith

inc32_small : (n : ℕ) → n + 1 < u32_mod → inc32 n ≡ n + 1
inc32_small n small = omega arith

count_small :
    (b : Bool) (s : FrameValidationSummary) (n : ℕ)
    → s.valid + s.invalid + suc n < u32_mod
    → (let s' =
          if b
          then record s { valid = inc32 s.valid }
          else record s { invalid = inc32 s.invalid } in
        s'.valid + s'.invalid + n < u32_mod)
count_small true s n small = omega arith
count_small false s n small = omega arith

module _ {F : Type 0} ⦃f : Float F⦄ where
  open f use {is_finite, ratio, of_ℕ, mul, nan}

  -- A point that is marked valid has a finite height.
  IsMarked : Point3D F → Type 0
  IsMarked p = (p.valid && is_finite p.z) ≡ p.valid

  if-IsMarked :
      (c : Bool) (x y z : F)
      → (c ≡ true → is_finite z ≡ true)
      → IsMarked (
          if c
          then record { x = x; y = y; z = z; valid = true }
          else record { x = x; y = y; z = nan; valid = false })
  unfolding IsMarked
  if-IsMarked true x y z finite = finite refl
  if-IsMarked false x y z finite = refl

  is_valid-finite :
      (planes : Option (TransformParameters F)) (wx wy z : F) (d : ℕ)
      → is_valid planes wx wy z d ≡ true
      → is_finite z ≡ true
  unfolding is_valid
  is_valid-finite planes wx wy z d e = and_middle _ (is_finite z) _ e

  build_point-IsMarked :
      (planes : Option (TransformParameters F)) (scale : F) (w h idx : ℕ) (d : Option ℕ)
      → IsMarked (build_point planes scale w h idx d)
  unfolding build_point IsMarked
  build_point-IsMarked planes scale w h idx none = refl
  build_point-IsMarked planes scale w h idx (some d) =
      let (wx, wy) = centred w h idx in
      let z = if d == 0 then ratio 0 1 else mul (of_ℕ d) scale in
      if-IsMarked (is_valid planes wx wy z d) wx wy z (is_valid-finite planes wx wy z d)

  -- The counts of a summary after some points, and of the points counted again.
  record IsCounted (n from : ℕ) (ps : List (Point3D F)) (s s' : FrameValidationSummary)
      : Type 0 where
    size : length ps ≡ n
    all : s'.valid + s'.invalid ≡ s.valid + s.invalid + n
    again : recalculated_invalid ps from + s.invalid ≡ s'.invalid + from

  count_point-valid :
      (p : Point3D F) (s : FrameValidationSummary)
      → p.valid ≡ true
      → count_point p s ≡ record s { valid = inc32 s.valid }
  unfolding count_point
  count_point-valid p s e = rw e refl

  count_point-invalid :
      (p : Point3D F) (s : FrameValidationSummary)
      → p.valid ≡ false
      → count_point p s ≡ record s { invalid = inc32 s.invalid }
  unfolding count_point
  count_point-invalid p s e = rw e refl

  recalculated_invalid-cons :
      (p : Point3D F) (ps : List (Point3D F)) (from : ℕ)
      → IsMarked p
      → recalculated_invalid (p ∷ ps) from
        ≡ recalculated_invalid ps (if p.valid then from else inc32 from)
  unfolding recalculated_invalid IsMarked
  recalculated_invalid-cons p ps from marked =
      ap (λ b. recalculated_invalid ps (if b then from else inc32 from)) marked

  count_point-small :
      (p : Point3D F) (s : FrameValidationSummary) (n : ℕ)
      → s.valid + s.invalid + suc n < u32_mod
      → (count_point p s).valid + (count_point p s).invalid + n < u32_mod
  unfolding count_point
  count_point-small p s n small = count_small p.valid s n small

  cons-IsCounted :
      (n from : ℕ) (p : Point3D F) (ps : List (Point3D F)) (s s' : FrameValidationSummary)
      → IsMarked p
      → s.valid + s.invalid + suc n < u32_mod
      → from + suc n < u32_mod
      → ((k : ℕ) → k + n < u32_mod → IsCounted n k ps (count_point p s) s')
      → IsCounted (suc n) from (p ∷ ps) s s'
  cons-IsCounted n from p ps s s' marked small small' rest = elim (Bool-cases p.valid) [
    | inl e ↦
        let r = rest from (omega arith) in
        let counted = count_point-valid p s e in
        let v : (count_point p s).valid ≡ s.valid + 1 =
          ap (λ x. x.valid) counted ∙ inc32_small s.valid (omega arith) in
        let i : (count_point p s).invalid ≡ s.invalid = ap (λ x. x.invalid) counted in
        let again =
          recalculated_invalid-cons p ps from marked
          ∙ ap (λ b. recalculated_invalid ps (if b then from else inc32 from)) e in
        record {
          size = ap suc r.size;
          all = omega (arith, r.all, v, i);
          again = omega (arith, r.again, again, i);
        }
    | inr e ↦
        let r = rest (inc32 from) (omega arith) in
        let counted = count_point-invalid p s e in
        let v : (count_point p s).valid ≡ s.valid = ap (λ x. x.valid) counted in
        let i : (count_point p s).invalid ≡ s.invalid + 1 =
          ap (λ x. x.invalid) counted ∙ inc32_small s.invalid (omega arith) in
        let again =
          recalculated_invalid-cons p ps from marked
          ∙ ap (λ b. recalculated_invalid ps (if b then from else inc32 from)) e in
        let next = inc32_small from (omega arith) in
        record {
          size = ap suc r.size;
          all = omega (arith, r.all, v, i);
          again = omega (arith, r.again, again, i, next);
        }
  ]

  build_points-IsCounted :
      (planes : Option (TransformParameters F)) (scale : F) (w h idx n from : ℕ) (depths : List ℕ)
      (s : FrameValidationSummary)
      → s.valid + s.invalid + n < u32_mod
      → from + n < u32_mod
      → (let (ps, s') = build_points planes scale w h idx n depths s in IsCounted n from ps s s')
  unfolding build_points recalculated_invalid
  build_points-IsCounted planes scale w h idx zero from depths s small small' = record {
    size = refl;
    all = omega arith;
    again = omega arith;
  }
  build_points-IsCounted planes scale w h idx (suc n) from [] s small small' =
      let p = build_point planes scale w h idx none in
      cons-IsCounted n from p _ s _ (build_point-IsMarked planes scale w h idx none) small small'
        (λ k k_small.
          build_points-IsCounted planes scale w h (idx + 1) n k [] (count_point p s)
            (count_point-small p s n small) k_small)
  build_points-IsCounted planes scale w h idx (suc n) from (d ∷ depths) s small small' =
      let p = build_point planes scale w h idx (some d) in
      cons-IsCounted n from p _ s _ (build_point-IsMarked planes scale w h idx (some d)) small
        small'
        (λ k k_small.
          build_points-IsCounted planes scale w h (idx + 1) n k depths (count_point p s)
            (count_point-small p s n small) k_small)

  -- For a frame with sides that are not negative and whose product is an `int`, whatever its depths, their
  -- number and the planes: the cloud is built, it has a point for each pixel, each is counted once, as valid
  -- or as invalid, and the invalid points counted again from the cloud are as many.
  pub build_and_validate-counts :
      (planes : Option (TransformParameters F)) (scale : F) (raw : RawDepthFrame) (w h : ℕ)
      → raw.width ≡ pos w
      → raw.height ≡ pos h
      → w * h < int_limit
      → (cloud : InternalPointCloud F) × (s : FrameValidationSummary)
        × (build_and_validate_point_cloud planes scale raw ≡ some (cloud, s))
        × (length cloud.points ≡ w * h)
        × (s.valid + s.invalid ≡ w * h)
        × (recalculated_invalid cloud.points 0 ≡ s.invalid)
  unfolding build_and_validate_point_cloud int_area
  build_and_validate-counts planes scale raw w h width height small =
      let counted =
        build_points-IsCounted planes scale w h 0 (w * h) 0 raw.samples
          (record { valid = 0; invalid = 0 }) (omega arith) (omega arith) in
      let (ps, s) =
        build_points planes scale w h 0 (w * h) raw.samples (record { valid = 0; invalid = 0 }) in
      (
        record { timestamp_ns = raw.timestamp_ns; width = pos w; height = pos h; points = ps },
        s,
        rw (width, height, int_index-some (w * h) small) refl,
        counted.size,
        omega (arith, counted.all),
        omega (arith, counted.again),
      )
