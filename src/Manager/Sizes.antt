-- ===== src/Manager/Sizes.antt =====
-- Smoothing does not fail, and a height map keeps its size.
use caldera_sandbox.Base.{
  ℕ, ◌+◌, ◌*◌, ◌≤◌, ◌<◌, ◌≡◌, refl, ap, ◌∙◌, Bool, true, false, Option, some, List, length,
  if◌then◌else◌, ◌>>=◌,
}
use caldera_sandbox.Base.Int.{ℤ, pos_part, int_limit}
use caldera_sandbox.Base.Float.{Float}
use caldera_sandbox.Spatial.Holes.{length-apply}
use caldera_sandbox.Blur.Gaussian.{ideal_width}
use caldera_sandbox.Blur.Whole.{apply_blur-some}
use caldera_sandbox.Manager.Kernels.{
  AltKernel, alt_fastgauss, alt_wide5, alt_other, StrongKernel, classic_double, wide5, fastgauss,
  strong_other, Kernels, apply_classic, apply_fast, strong_after_fast, strong_after_classic,
  smooth_map, apply_spatial_filter,
}

module _ {F : Type 0} ⦃f : Float F⦄ (sqrt : F → F) (floor : F → ℕ) (round : F → ℤ) where
  -- A step that succeeds whenever the ideal filter of the deviation has a positive width, and keeps the size
  -- of the height map and the deviation.
  abbrev pub Keeps : (List F × Kernels F → Option (List F × Kernels F)) → Type 0
  Keeps step =
      (s : List F × Kernels F)
      → 0 < ideal_width sqrt floor round s.1.sigma
      → (s' : List F × Kernels F) × (step s ≡ some s')
        × (length s'.0 ≡ length s.0)
        × (s'.1.sigma ≡ s.1.sigma)

  some-Keeps : Keeps some
  some-Keeps s wide = (s, refl, refl, refl)

  then-Keeps :
      (g h : List F × Kernels F → Option (List F × Kernels F))
      → Keeps g
      → Keeps h
      → Keeps (λ s. g s >>= h)
  then-Keeps g h keeps_g keeps_h s wide =
      let (s₁, e₁, size₁, same₁) = keeps_g s wide in
      let (s₂, e₂, size₂, same₂) = keeps_h s₁ (rw (ap (ideal_width sqrt floor round) same₁) wide) in
      (s₂, rw e₁ e₂, size₂ ∙ size₁, same₂ ∙ same₁)

  if-Keeps :
      (b : Bool) (g h : List F × Kernels F → Option (List F × Kernels F))
      → Keeps g
      → Keeps h
      → Keeps (λ s. if b then g s else h s)
  if-Keeps true g h keeps_g keeps_h = keeps_g
  if-Keeps false g h keeps_g keeps_h = keeps_h

  -- The size of the map and the index past its last row are `int`s.
  module _ (w h : ℤ) (area : pos_part w * pos_part h < int_limit)
      (small : pos_part w * pos_part h + pos_part w ≤ int_limit) where
    apply_classic-Keeps : Keeps (apply_classic sqrt floor round w h)
    unfolding apply_classic
    apply_classic-Keeps (heights, k) wide =
        let (out, e, size) = length-apply k.classic heights w h area in
        ((out, k), rw e refl, size, refl)

    apply_fast-Keeps : Keeps (apply_fast sqrt floor round w h)
    unfolding apply_fast
    apply_fast-Keeps (heights, k) wide =
        let (b, e, size) =
          apply_blur-some sqrt floor round k.sigma w h (record { heights = heights; temp = k.temp })
            wide small in
        ((b.heights, record k { temp = b.temp }), rw e refl, size, refl)

    strong_after_fast-Keeps :
        (c : StrongKernel) (double : Bool) → Keeps (strong_after_fast sqrt floor round c double w h)
    unfolding strong_after_fast
    strong_after_fast-Keeps classic_double double =
        if-Keeps double _ some (apply_fast-Keeps) some-Keeps
    strong_after_fast-Keeps fastgauss double = if-Keeps double _ some (apply_fast-Keeps) some-Keeps
    strong_after_fast-Keeps wide5 double = apply_classic-Keeps
    strong_after_fast-Keeps strong_other double = some-Keeps

    strong_after_classic-Keeps :
        (alt : AltKernel) (c : StrongKernel) (double : Bool)
        → Keeps (strong_after_classic sqrt floor round alt c double w h)
    unfolding strong_after_classic
    strong_after_classic-Keeps alt classic_double double =
        if-Keeps double _ some (apply_classic-Keeps) some-Keeps
    strong_after_classic-Keeps alt_wide5 wide5 double = some-Keeps
    strong_after_classic-Keeps alt_fastgauss wide5 double =
        if-Keeps double _ some (apply_classic-Keeps) some-Keeps
    strong_after_classic-Keeps alt_other wide5 double =
        if-Keeps double _ some (apply_classic-Keeps) some-Keeps
    strong_after_classic-Keeps alt fastgauss double = apply_fast-Keeps
    strong_after_classic-Keeps alt strong_other double = some-Keeps

    classic_pass-Keeps :
        (alt : AltKernel) (c : StrongKernel) (double strong : Bool)
        → Keeps (λ s. apply_classic sqrt floor round w h s >>= λ s₁.
            (if strong then strong_after_classic sqrt floor round alt c double w h s₁ else some s₁))
    classic_pass-Keeps alt c double strong =
        then-Keeps _ _ (apply_classic-Keeps)
          (if-Keeps strong _ some (strong_after_classic-Keeps alt c double) some-Keeps)

    smooth_map-Keeps :
        (alt : AltKernel) (c : StrongKernel) (double strong : Bool)
        → Keeps (smooth_map sqrt floor round alt c double strong w h)
    unfolding smooth_map
    smooth_map-Keeps alt_fastgauss c double strong =
        then-Keeps _ _ (apply_fast-Keeps)
          (if-Keeps strong _ some (strong_after_fast-Keeps c double) some-Keeps)
    smooth_map-Keeps alt_wide5 c double strong = classic_pass-Keeps alt_wide5 c double strong
    smooth_map-Keeps alt_other c double strong = classic_pass-Keeps alt_other c double strong

    pub apply_spatial_filter-Keeps :
        (alt : AltKernel) (c : StrongKernel) (double applies strong : Bool)
        → Keeps (apply_spatial_filter sqrt floor round alt c double applies strong w h)
    unfolding apply_spatial_filter
    apply_spatial_filter-Keeps alt c double applies strong =
        if-Keeps applies _ some (smooth_map-Keeps alt c double strong) some-Keeps
