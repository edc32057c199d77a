-- ===== src/Temporal/Statistics.antt =====
-- `getStatistics`. The time that a frame took, which no code writes, is left out.
use caldera_sandbox.Base.{ℕ, ◌+◌, ◌%◌, List, [], ◌∷◌, ltb, if◌then◌else◌}
use caldera_sandbox.Base.Words.{u32_mod, inc32}
use caldera_sandbox.Base.Float.{Float}
use caldera_sandbox.Temporal.Pixel.{PixelStatistics, get_variance}
use caldera_sandbox.Temporal.Filter.{TemporalFilter}

pub record FilterStatistics (F : Type 0) : Type 0 where
  pub total_frames : ℕ
  pub stable_pixels : ℕ
  pub unstable_pixels : ℕ
  pub stability_ratio : F
  pub avg_variance : F

module _ {F : Type 0} ⦃f : Float F⦄ {D : Type 0} ⦃d : Float D⦄ (narrow : D → F) where
  open f use {of_ℕ, ratio, add, div}

  -- The sum of the variances of the pixels with more than one sample, and their number.
  unfoldable pub sum_variances : List (PixelStatistics F) → F → ℕ → F × ℕ
  unfolding get_variance
  sum_variances [] total count = (total, count)
  sum_variances (st ∷ stats) total count =
      if ltb 1 st.num_samples
      then sum_variances stats (add total (get_variance narrow st)) (inc32 count)
      else sum_variances stats total count

  unfoldable pub get_statistics : TemporalFilter F → FilterStatistics F
  unfolding sum_variances
  get_statistics t =
      let pixels = (t.stable_pixel_count + t.unstable_pixel_count) % u32_mod in
      let (total, count) = sum_variances t.pixel_stats (ratio 0 1) 0 in
      record {
        total_frames = t.frame_count;
        stable_pixels = t.stable_pixel_count;
        unstable_pixels = t.unstable_pixel_count;
        stability_ratio =
            if ltb 0 pixels then div (of_ℕ t.stable_pixel_count) (of_ℕ pixels) else ratio 0 1;
        avg_variance = if ltb 0 count then div total (of_ℕ count) else ratio 0 1;
      }
