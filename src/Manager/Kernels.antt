-- ===== src/Manager/Kernels.antt =====
-- `applySpatialFilter`: which kernels smooth the height map. The samples that it takes for the metrics are
-- left out.
use caldera_sandbox.Base.{Bool, ℕ, Option, some, List, if◌then◌else◌, ◌>>=◌}
use caldera_sandbox.Base.Int.{ℤ}
use caldera_sandbox.Base.Float.{Float}
use caldera_sandbox.Spatial.Kernel.{SpatialFilter, apply}
use caldera_sandbox.Blur.Gaussian.{apply_blur}

-- The name of a kernel, as far as it is told apart: `CALDERA_SPATIAL_KERNEL_ALT`.
pub data AltKernel : Type 0 where
  alt_fastgauss alt_wide5 alt_other : AltKernel

-- `strongKernelChoice`.
pub data StrongKernel : Type 0 where
  classic_double wide5 fastgauss strong_other : StrongKernel

-- The lazy singletons, and the blur's working buffer.
pub record Kernels (F : Type 0) : Type 0 where
  pub classic : SpatialFilter
  pub sigma : F
  pub temp : List F

module _ {F : Type 0} ⦃f : Float F⦄ (sqrt : F → F) (floor : F → ℕ) (round : F → ℤ) where
  -- The height map with the kernels.
  abbrev pub Smoothed : Type 0
  Smoothed = List F × Kernels F

  unfoldable pub apply_classic : ℤ → ℤ → Smoothed → Option Smoothed
  apply_classic w h (heights, k) = apply k.classic heights w h >>= λ heights'. some (heights', k)

  unfoldable pub apply_fast : ℤ → ℤ → Smoothed → Option Smoothed
  apply_fast w h (heights, k) =
      apply_blur sqrt floor round k.sigma w h (record { heights = heights; temp = k.temp }) >>= λ b.
      some (b.heights, record k { temp = b.temp })

  -- The second pass of a strong frame, after the fast kernel.
  unfoldable pub strong_after_fast : StrongKernel → Bool → ℤ → ℤ → Smoothed → Option Smoothed
  unfolding apply_classic apply_fast
  strong_after_fast classic_double double w h s = if double then apply_fast w h s else some s
  strong_after_fast fastgauss double w h s = if double then apply_fast w h s else some s
  strong_after_fast wide5 double w h s = apply_classic w h s
  strong_after_fast strong_other double w h s = some s

  -- And after the classic one.
  unfoldable pub strong_after_classic :
      AltKernel → StrongKernel → Bool → ℤ → ℤ → Smoothed → Option Smoothed
  unfolding apply_classic apply_fast
  strong_after_classic alt classic_double double w h s =
      if double then apply_classic w h s else some s
  strong_after_classic alt_wide5 wide5 double w h s = some s
  strong_after_classic alt wide5 double w h s = if double then apply_classic w h s else some s
  strong_after_classic alt fastgauss double w h s = apply_fast w h s
  strong_after_classic alt strong_other double w h s = some s

  unfoldable pub smooth_map :
      AltKernel → StrongKernel → Bool → Bool → ℤ → ℤ → Smoothed → Option Smoothed
  unfolding strong_after_fast strong_after_classic
  smooth_map alt_fastgauss choice double strong w h s = apply_fast w h s >>= λ s₁.
      (if strong then strong_after_fast choice double w h s₁ else some s₁)
  smooth_map alt choice double strong w h s = apply_classic w h s >>= λ s₁.
      (if strong then strong_after_classic alt choice double w h s₁ else some s₁)

  unfoldable pub apply_spatial_filter :
      AltKernel → StrongKernel → Bool → Bool → Bool → ℤ → ℤ → Smoothed → Option Smoothed
  unfolding smooth_map
  apply_spatial_filter alt choice double applies strong w h s =
      if applies then smooth_map alt choice double strong w h s else some s
