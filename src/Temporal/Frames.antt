-- ===== src/Temporal/Frames.antt =====
-- A frame leaves the filter consistent: pixel by pixel, then over the loop.
use native.Mathlib.Omega.{arith}
use caldera_sandbox.Base.{
  ℕ, zero, suc, ◌+◌, ◌≤◌, ◌<◌, ◌≡◌, ◌≢◌, refl, sym, ◌∙◌, Bool, true, false, ◌||◌, List, [], ◌∷◌,
  ◌==◌, leb, min, if◌then◌else◌, Bool-cases, inl, inr, length, get_or, set, length-set,
  get_or-set_self, get_or-set_ne,
}
use caldera_sandbox.Base.Int.{ℤ, to_u32}
use caldera_sandbox.Base.Words.{inc32}
use caldera_sandbox.Base.Float.{Float}
use caldera_sandbox.Temporal.Pixel.{
  PixelStatistics, invalid_depth, no_statistics, height_to_buffer, check_stability,
}
use caldera_sandbox.Temporal.Filter.{
  TemporalFilter, pixels, record_sample, stable_pixel, unstable_pixel, judge_pixel, filter_pixel,
  filter_pixels, next_slot, filter_frame, fitted, is_empty, apply,
}
use caldera_sandbox.Temporal.Consistent.{IsNumber, IsConsistent, record_sample-IsConsistent}

height_to_buffer-lt :
    {F : Type 0} ⦃f : Float F⦄ (x : F)
    → IsNumber f
    → f.is_finite x ≡ true
    → height_to_buffer x < invalid_depth
unfolding height_to_buffer
height_to_buffer-lt ⦃f⦄ x laws finite =
    elim (Bool-cases (f.lt (f.mul x (f.ratio 1000 1)) (f.ratio 0 1))) [
      | inl e ↦ rw e (omega arith)
      | inr e ↦ elim (Bool-cases (f.le (f.of_ℕ invalid_depth) (f.mul x (f.ratio 1000 1)))) [
        | inl e' ↦ rw (e, e') (omega arith)
        | inr e' ↦ rw (e, e') (laws.truncate_lt x invalid_depth finite e e')
      ]
    ]

-- A verdict on pixel `i` changes neither its sums nor anybody's samples.
verdict-IsConsistent :
    {F : Type 0} ⦃f : Float F⦄ (n i : ℕ) (t t' : TemporalFilter F) (st : PixelStatistics F)
    → IsConsistent n t
    → i < n
    → t'.config ≡ t.config
    → t'.averaging_buffer ≡ t.averaging_buffer
    → t'.averaging_slot_index ≡ t.averaging_slot_index
    → length t'.valid_buffer ≡ length t.valid_buffer
    → t'.pixel_stats ≡ set t.pixel_stats i st
    → st.num_samples ≡ (get_or t.pixel_stats i no_statistics).num_samples
    → st.sum_samples ≡ (get_or t.pixel_stats i no_statistics).sum_samples
    → st.sum_squares ≡ (get_or t.pixel_stats i no_statistics).sum_squares
    → IsConsistent n t'
verdict-IsConsistent n i t t' st ok i_lt c b s v stats num total squares = record {
  buffer_length = rw (b, c) ok.buffer_length;
  stats_length = rw (stats, length-set t.pixel_stats i st) ok.stats_length;
  valid_length = v ∙ ok.valid_length;
  slot_inside = rw (s, c) ok.slot_inside;
  few_slots = rw c ok.few_slots;
  samples = rw b ok.samples;
  tracks = λ p p_lt. elim (Bool-cases (i == p)) [
    | inl e ↦
        let same : i ≡ p = ground arith in
        let before = ok.tracks i i_lt in
        let now =
          get_or-set_self t.pixel_stats i st no_statistics (omega (arith, ok.stats_length)) in
        rw (sym same, c, b, stats, now)
          (record {
            num = num ∙ before.num;
            total = total ∙ before.total;
            squares = squares ∙ before.squares;
          })
    | inr e ↦
        let other : i ≢ p = ground arith in
        let now = get_or-set_ne t.pixel_stats i p st no_statistics other in
        rw (c, b, stats, now) (ok.tracks p p_lt)
  ];
}

module _ {F : Type 0} ⦃f : Float F⦄ where
  stable_pixel-IsConsistent :
      (n i : ℕ) (t : TemporalFilter F)
      → i < n
      → IsConsistent n t
      → IsConsistent n (stable_pixel i t).1
  unfolding stable_pixel
  stable_pixel-IsConsistent n i t i_lt ok =
      verdict-IsConsistent n i t (stable_pixel i t).1 _ ok i_lt refl refl refl
        (length-set t.valid_buffer i _) refl refl refl refl

  length-kept :
      (b : Bool) (xs : List F) (i : ℕ) (x : F) → length (if b then xs else set xs i x) ≡ length xs
  length-kept true xs i x = refl
  length-kept false xs i x = length-set xs i x

  unstable_pixel-IsConsistent :
      (n i : ℕ) (t : TemporalFilter F)
      → i < n
      → IsConsistent n t
      → IsConsistent n (unstable_pixel i t).1
  unfolding unstable_pixel
  unstable_pixel-IsConsistent n i t i_lt ok =
      verdict-IsConsistent n i t (unstable_pixel i t).1 _ ok i_lt refl refl refl
        (length-kept t.config.retain_valids t.valid_buffer i t.config.instable_value) refl refl refl
        refl

  module _ {D : Type 0} ⦃d : Float D⦄ (narrow : D → F) where
    judge_pixel-IsConsistent :
        (n i : ℕ) (t : TemporalFilter F)
        → i < n
        → IsConsistent n t
        → IsConsistent n (judge_pixel narrow i t).1
    unfolding judge_pixel
    judge_pixel-IsConsistent n i t i_lt ok =
        elim (Bool-cases (check_stability narrow t.config (get_or t.pixel_stats i no_statistics))) [
          | inl e ↦ rw e (stable_pixel-IsConsistent n i t i_lt ok)
          | inr e ↦ rw e (unstable_pixel-IsConsistent n i t i_lt ok)
        ]

    filter_pixel-IsConsistent :
        (n i : ℕ) (input : F) (t : TemporalFilter F)
        → IsNumber f
        → i < n
        → IsConsistent n t
        → IsConsistent n (filter_pixel narrow n i input t).1
    unfolding filter_pixel
    filter_pixel-IsConsistent n i input t laws i_lt ok = elim (Bool-cases (f.is_finite input)) [
      | inl e ↦ rw e (
          judge_pixel-IsConsistent n i (record_sample n i input t) i_lt
            (record_sample-IsConsistent n i input t (height_to_buffer-lt input laws e) i_lt ok))
      | inr e ↦ rw e ok
    ]

    filter_pixels-IsConsistent :
        (n i left : ℕ) (inputs : List F) (t : TemporalFilter F)
        → IsNumber f
        → i + left ≤ n
        → IsConsistent n t
        → IsConsistent n (filter_pixels narrow n i left inputs t).1
    unfolding filter_pixels
    filter_pixels-IsConsistent n i zero inputs t laws le ok = ok
    filter_pixels-IsConsistent n i (suc left) [] t laws le ok = ok
    filter_pixels-IsConsistent n i (suc left) (input ∷ inputs) t laws le ok =
        filter_pixels-IsConsistent n (i + 1) left inputs (filter_pixel narrow n i input t).1 laws
          (omega arith) (filter_pixel-IsConsistent n i input t laws (omega arith) ok)

  next_slot-IsConsistent :
      (n : ℕ) (t : TemporalFilter F) → IsConsistent n t → IsConsistent n (next_slot t)
  unfolding next_slot
  next_slot-IsConsistent n t ok = record {
    buffer_length = ok.buffer_length;
    stats_length = ok.stats_length;
    valid_length = ok.valid_length;
    slot_inside = next_inside t.config.num_averaging_slots t.averaging_slot_index ok.slot_inside;
    few_slots = ok.few_slots;
    samples = ok.samples;
    tracks = ok.tracks;
  }
    where
      next_inside : (slots k : ℕ) → k < slots → (if leb slots (inc32 k) then 0 else inc32 k) < slots
      next_inside slots k lt = ground arith

  pub fitted-id :
      (w h : ℤ) (t : TemporalFilter F) → to_u32 w ≡ t.width → to_u32 h ≡ t.height → fitted w h t ≡ t
  unfolding fitted
  fitted-id w h t same_w same_h = ground (arith, same_w, same_h)

  restart-IsConsistent :
      (n : ℕ) (t : TemporalFilter F)
      → IsConsistent n t
      → IsConsistent n (record t { stable_pixel_count = 0; unstable_pixel_count = 0 })
  restart-IsConsistent n t ok = record {
    buffer_length = ok.buffer_length;
    stats_length = ok.stats_length;
    valid_length = ok.valid_length;
    slot_inside = ok.slot_inside;
    few_slots = ok.few_slots;
    samples = ok.samples;
    tracks = ok.tracks;
  }

  module _ {D : Type 0} ⦃d : Float D⦄ (narrow : D → F) where
    filter_frame-IsConsistent :
        (inputs : List F) (t : TemporalFilter F)
        → IsNumber f
        → pixels t.width t.height ≤ length inputs
        → IsConsistent (pixels t.width t.height) t
        → IsConsistent (pixels t.width t.height) (filter_frame narrow inputs t).1
    unfolding filter_frame
    filter_frame-IsConsistent inputs t laws enough ok =
        let n = pixels t.width t.height in
        let whole : min (length inputs) n ≡ n = omega arith in
        let start = record t { stable_pixel_count = 0; unstable_pixel_count = 0 } in
        next_slot-IsConsistent n _ (
          rw whole (
            filter_pixels-IsConsistent narrow n 0 n inputs start laws (omega arith)
              (restart-IsConsistent n t ok)))

    -- For frames of the filter's size with at least as many values as pixels: if every pixel's statistics
    -- are the sums over its window in the averaging buffer, then they are after `apply`. (A finite number
    -- times 1000 that is not at least `n` must be truncated to less than `n`.)
    pub apply-IsConsistent :
        (inputs : List F) (w h : ℤ) (t : TemporalFilter F)
        → IsNumber f
        → to_u32 w ≡ t.width
        → to_u32 h ≡ t.height
        → pixels t.width t.height ≤ length inputs
        → IsConsistent (pixels t.width t.height) t
        → IsConsistent (pixels t.width t.height) (apply narrow inputs w h t).1
    unfolding apply
    apply-IsConsistent inputs w h t laws same_w same_h enough ok =
        rw (fitted-id w h t same_w same_h)
          (elim (Bool-cases (is_empty inputs || (t.width == 0) || (t.height == 0))) [
            | inl e ↦ rw e ok
            | inr e ↦ rw e (filter_frame-IsConsistent inputs t laws enough ok)
          ])
