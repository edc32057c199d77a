-- ===== src/Temporal/Runs.antt =====
-- The filter over its life: set up once, then frames, clouds and resets in any order.
use caldera_sandbox.Base.{
  ℕ, zero, suc, ◌+◌, ◌≤◌, ◌<◌, ◌≡◌, refl, ◌||◌, ◌==◌, List, [], ◌∷◌, All, length, min, get_or,
  if-either,
}
use mathlib.Core.Path.{subst}
use caldera_sandbox.Base.Int.{ℤ, to_u32}
use caldera_sandbox.Base.Words.{u32_mod}
use caldera_sandbox.Base.Float.{Float}
use caldera_sandbox.Temporal.Pixel.{FilterConfig, no_statistics, check_stability}
use caldera_sandbox.Temporal.Filter.{
  TemporalFilter, pixels, create, initialize, reset, apply, is_empty, filter_frame, filter_pixels,
  filter_pixel, judge_pixel, stable_pixel, unstable_pixel, record_sample, next_slot,
}
use caldera_sandbox.Temporal.Consistent.{IsNumber, IsConsistent}
use caldera_sandbox.Temporal.Frames.{apply-IsConsistent, fitted-id}
use caldera_sandbox.Temporal.Cloud.{
  InternalPointCloud, Point3D, heights, process_frame, process_frame-IsConsistent,
}
use caldera_sandbox.Temporal.Fresh.{initialize-IsConsistent, reset-IsConsistent}

pub data Call (F : Type 0) : Type 0 where
  applies : List F → ℤ → ℤ → Call F
  processes : InternalPointCloud F → Call F
  resets : Call F

module _ {F : Type 0} ⦃f : Float F⦄ where
  -- The size that the filter was set up for.
  record IsSized (w h : ℕ) (t : TemporalFilter F) : Type 0 where
    same_width : t.width ≡ w
    same_height : t.height ≡ h

  module _ {D : Type 0} ⦃d : Float D⦄ (narrow : D → F) where
    unfoldable pub call : Call F → TemporalFilter F → TemporalFilter F
    unfolding apply process_frame reset
    call (applies inputs w h) t = (apply narrow inputs w h t).1
    call (processes cloud) t = (process_frame narrow cloud t).1
    call resets t = reset t

    unfoldable pub calls : List (Call F) → TemporalFilter F → TemporalFilter F
    unfolding call
    calls [] t = t
    calls (c ∷ cs) t = calls cs (call c t)

    filter_pixel-IsSized :
        (w h n i : ℕ) (input : F) (t : TemporalFilter F)
        → IsSized w h t
        → IsSized w h (filter_pixel narrow n i input t).1
    unfolding filter_pixel judge_pixel stable_pixel unstable_pixel record_sample
    filter_pixel-IsSized w h n i input t s =
        let t' = record_sample n i input t in
        let kept : IsSized w h t' = record {
          same_width = s.same_width;
          same_height = s.same_height;
        } in
        if-either (λ (r : F × TemporalFilter F). IsSized w h r.1) (f.is_finite input)
          (judge_pixel narrow i t') (get_or t.valid_buffer i (f.ratio 0 1), t)
          (if-either (λ (r : F × TemporalFilter F). IsSized w h r.1)
            (check_stability narrow t'.config (get_or t'.pixel_stats i no_statistics))
            (stable_pixel i t') (unstable_pixel i t')
            (record { same_width = kept.same_width; same_height = kept.same_height })
            (record { same_width = kept.same_width; same_height = kept.same_height }))
          s

    filter_pixels-IsSized :
        (w h n i left : ℕ) (inputs : List F) (t : TemporalFilter F)
        → IsSized w h t
        → IsSized w h (filter_pixels narrow n i left inputs t).1
    unfolding filter_pixels
    filter_pixels-IsSized w h n i zero inputs t s = s
    filter_pixels-IsSized w h n i (suc left) [] t s = s
    filter_pixels-IsSized w h n i (suc left) (input ∷ inputs) t s =
        filter_pixels-IsSized w h n (i + 1) left inputs (filter_pixel narrow n i input t).1
          (filter_pixel-IsSized w h n i input t s)

    filter_frame-IsSized :
        (w h : ℕ) (inputs : List F) (t : TemporalFilter F)
        → IsSized w h t
        → IsSized w h (filter_frame narrow inputs t).1
    unfolding filter_frame next_slot
    filter_frame-IsSized w h inputs t s =
        let n = min (length inputs) (pixels t.width t.height) in
        let start = record t { stable_pixel_count = 0; unstable_pixel_count = 0 } in
        let kept =
          filter_pixels-IsSized w h n 0 n inputs start
            (record { same_width = s.same_width; same_height = s.same_height }) in
        record { same_width = kept.same_width; same_height = kept.same_height }

    apply-IsSized :
        (inputs : List F) (w h : ℤ) (t : TemporalFilter F)
        → to_u32 w ≡ t.width
        → to_u32 h ≡ t.height
        → IsSized t.width t.height (apply narrow inputs w h t).1
    unfolding apply
    apply-IsSized inputs w h t same_w same_h =
        let s : IsSized t.width t.height t = record { same_width = refl; same_height = refl } in
        rw (fitted-id w h t same_w same_h) (
          if-either (λ (r : List F × TemporalFilter F). IsSized t.width t.height r.1)
            (is_empty inputs || (t.width == 0) || (t.height == 0)) (inputs, t)
            (filter_frame narrow inputs t) s (filter_frame-IsSized t.width t.height inputs t s))

    process_points-IsSized :
        (cloud : InternalPointCloud F) (ps : List (Point3D F)) (t : TemporalFilter F)
        → cloud.points ≡ ps
        → to_u32 cloud.width ≡ t.width
        → to_u32 cloud.height ≡ t.height
        → IsSized t.width t.height (process_frame narrow cloud t).1
    unfolding process_frame
    process_points-IsSized cloud [] t e same_w same_h =
        rw e (record { same_width = refl; same_height = refl })
    process_points-IsSized cloud (p ∷ ps) t e same_w same_h =
        rw e (apply-IsSized (heights (p ∷ ps)) cloud.width cloud.height t same_w same_h)

    -- What is of the filter's size, with at least as many values as pixels.
    abbrev pub Fits : ℕ → ℕ → Call F → Type 0
    Fits w h (applies inputs fw fh) =
        (to_u32 fw ≡ w) × (to_u32 fh ≡ h) × (pixels w h ≤ length inputs)
    Fits w h (processes cloud) =
        (to_u32 cloud.width ≡ w) × (to_u32 cloud.height ≡ h) × (pixels w h ≤ length cloud.points)
    Fits w h resets = Unit

    call-step :
        (c : Call F) (t : TemporalFilter F)
        → IsNumber f
        → Fits t.width t.height c
        → IsConsistent (pixels t.width t.height) t
        → IsSized t.width t.height (call c t) × IsConsistent (pixels t.width t.height) (call c t)
    unfolding call reset
    call-step (applies inputs w h) t laws (same_w, same_h, enough) ok = (
      apply-IsSized inputs w h t same_w same_h,
      apply-IsConsistent narrow inputs w h t laws same_w same_h enough ok,
    )
    call-step (processes cloud) t laws (same_w, same_h, enough) ok = (
      process_points-IsSized cloud cloud.points t refl same_w same_h,
      process_frame-IsConsistent narrow cloud t laws same_w same_h enough ok,
    )
    call-step resets t laws fits ok = (
      record { same_width = refl; same_height = refl },
      reset-IsConsistent (pixels t.width t.height) t ok,
    )

    abbrev Kept : Call F → TemporalFilter F → ℕ → ℕ → Type 0
    Kept c t w h =
        Fits w h c
        → IsConsistent (pixels w h) t
        → IsSized w h (call c t) × IsConsistent (pixels w h) (call c t)

    calls-IsConsistent :
        (cs : List (Call F)) (w h : ℕ) (t : TemporalFilter F)
        → IsNumber f
        → IsSized w h t
        → All (Fits w h) cs
        → IsConsistent (pixels w h) t
        → IsConsistent (pixels w h) (calls cs t)
    unfolding calls
    calls-IsConsistent [] w h t laws sized fits ok = ok
    calls-IsConsistent (c ∷ cs) w h t laws sized (one, fits) ok =
        let step =
          subst (λ w. Kept c t w h) sized.same_width
            (subst (Kept c t t.width) sized.same_height (call-step c t laws)) in
        let (sized', ok') = step one ok in calls-IsConsistent cs w h (call c t) laws sized' fits ok'

    -- A filter with at least one slot and fewer than 2^32 that is set up for `w` by `h` pixels: after any
    -- frames, clouds and resets, in any order, all of that size and with at least as many values as pixels,
    -- every pixel's statistics are the sums over its window in the averaging buffer. (A finite number times
    -- 1000 that is not at least `n` must be truncated to less than `n`.)
    pub calls-initialize-IsConsistent :
        (cs : List (Call F)) (w h : ℕ) (c : FilterConfig F)
        → IsNumber f
        → 0 < c.num_averaging_slots
        → c.num_averaging_slots < u32_mod
        → All (Fits w h) cs
        → IsConsistent (pixels w h) (calls cs (initialize w h (create c)))
    unfolding initialize
    calls-initialize-IsConsistent cs w h c laws some_slot few fits =
        calls-IsConsistent cs w h (initialize w h (create c)) laws
          (record { same_width = refl; same_height = refl }) fits
          (initialize-IsConsistent w h c some_slot few)
