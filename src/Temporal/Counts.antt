-- ===== src/Temporal/Counts.antt =====
-- The two counters of a frame: every finite value was judged once.
use caldera_sandbox.Base.{
  ℕ, zero, suc, ◌+◌, ◌≤◌, ◌<◌, ◌≡◌, List, [], ◌∷◌, min, if◌then◌else◌, arith, Bool-cases, inl, inr,
  length, get_or, take,
}
use caldera_sandbox.Base.Words.{u32_mod}
use caldera_sandbox.Base.Float.{Float}
use caldera_sandbox.Temporal.Pixel.{no_statistics, check_stability}
use caldera_sandbox.Temporal.Filter.{
  TemporalFilter, pixels, record_sample, stable_pixel, unstable_pixel, judge_pixel, filter_pixel,
  filter_pixels, next_slot, filter_frame,
}

module _ {F : Type 0} ⦃f : Float F⦄ where
  abbrev pub finite_count : List F → ℕ
  finite_count [] = 0
  finite_count (x ∷ xs) = (if f.is_finite x then 1 else 0) + finite_count xs

  abbrev pub judged : TemporalFilter F → ℕ
  judged t = t.stable_pixel_count + t.unstable_pixel_count

  module _ {D : Type 0} ⦃d : Float D⦄ (narrow : D → F) where
    judge_pixel-judged :
        (i : ℕ) (t : TemporalFilter F)
        → judged t + 1 < u32_mod
        → judged (judge_pixel narrow i t).1 ≡ judged t + 1
    unfolding judge_pixel stable_pixel unstable_pixel
    judge_pixel-judged i t fits =
        elim (Bool-cases (check_stability narrow t.config (get_or t.pixel_stats i no_statistics))) [
          | inl e ↦ rw e (omega arith)
          | inr e ↦ rw e (omega arith)
        ]

    filter_pixel-judged :
        (n i : ℕ) (input : F) (t : TemporalFilter F)
        → judged t + 1 < u32_mod
        → judged (filter_pixel narrow n i input t).1
          ≡ judged t + (if f.is_finite input then 1 else 0)
    unfolding filter_pixel record_sample
    filter_pixel-judged n i input t fits = elim (Bool-cases (f.is_finite input)) [
      | inl e ↦ rw e (judge_pixel-judged i (record_sample n i input t) fits)
      | inr e ↦ rw e (omega arith)
    ]

    filter_pixels-judged :
        (n i left : ℕ) (inputs : List F) (t : TemporalFilter F)
        → judged t + left < u32_mod
        → judged (filter_pixels narrow n i left inputs t).1
          ≡ judged t + finite_count (take left inputs)
    unfolding filter_pixels
    filter_pixels-judged n i zero inputs t fits = omega arith
    filter_pixels-judged n i (suc left) [] t fits = omega arith
    filter_pixels-judged n i (suc left) (input ∷ inputs) t fits =
        let here = filter_pixel-judged n i input t (omega arith) in
        let t₁ = (filter_pixel narrow n i input t).1 in
        let one : (if f.is_finite input then 1 else 0) ≤ 1 = ground arith in
        let rest = filter_pixels-judged n (i + 1) left inputs t₁ (omega (arith, here, one)) in
        omega (arith, here, rest)

    -- After a frame the counters of stable and of unstable pixels together are the number of finite values
    -- among the pixels that were processed.
    pub filter_frame-judged :
        (inputs : List F) (t : TemporalFilter F)
        → judged (filter_frame narrow inputs t).1
          ≡ finite_count (take (min (length inputs) (pixels t.width t.height)) inputs)
    unfolding filter_frame next_slot
    filter_frame-judged inputs t =
        let start = record t { stable_pixel_count = 0; unstable_pixel_count = 0 } in
        let n = min (length inputs) (pixels t.width t.height) in
        omega (arith, filter_pixels-judged n 0 n inputs start (omega arith))
