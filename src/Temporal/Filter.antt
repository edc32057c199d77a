-- ===== src/Temporal/Filter.antt =====
-- The filter's state and operations. Progress messages and timing are left out.
use caldera_sandbox.Base.{
  ℕ, zero, suc, ◌+◌, ◌-◌, ◌*◌, ◌/◌, ◌%◌, Bool, true, false, not, ◌&&◌, ◌||◌, List, [], ◌∷◌, ◌++◌,
  ◌==◌, leb, ltb, min, if◌then◌else◌, length, get_or, set, take, replicate,
}
use caldera_sandbox.Base.Int.{ℤ, to_u32}
use caldera_sandbox.Base.Words.{u32_mod, inc32, inc64}
use caldera_sandbox.Base.Float.{Float}
use caldera_sandbox.Temporal.Pixel.{
  FilterConfig, PixelStatistics, invalid_depth, no_statistics, height_to_buffer, get_mean,
  update_statistics, apply_hysteresis, check_stability,
}

pub record TemporalFilter (F : Type 0) : Type 0 where
  pub config : FilterConfig F
  pub width : ℕ
  pub height : ℕ
  -- the slots one after the other, each a frame
  pub averaging_buffer : List ℕ
  pub averaging_slot_index : ℕ
  pub pixel_stats : List (PixelStatistics F)
  pub valid_buffer : List F
  pub frame_count : ℕ
  pub stable_pixel_count : ℕ
  pub unstable_pixel_count : ℕ

-- `std::vector::resize`: what is there stays.
unfoldable pub resize : {A : Type 0} → ℕ → A → List A → List A
resize n a xs = take n xs ++ replicate (n - length xs) a

-- `uint32_t` times `uint32_t`.
abbrev pub pixels : ℕ → ℕ → ℕ
pixels w h = w * h % u32_mod

module _ {F : Type 0} ⦃f : Float F⦄ where
  open f use {ratio, is_finite}

  unfoldable pub create : FilterConfig F → TemporalFilter F
  create c = record {
    config = c;
    width = 0;
    height = 0;
    averaging_buffer = [];
    averaging_slot_index = 0;
    pixel_stats = [];
    valid_buffer = [];
    frame_count = 0;
    stable_pixel_count = 0;
    unstable_pixel_count = 0;
  }

  unfoldable pub initialize : ℕ → ℕ → TemporalFilter F → TemporalFilter F
  unfolding resize
  initialize w h t =
      let n = pixels w h in
      record t {
        width = w;
        height = h;
        averaging_buffer =
            resize (n * t.config.num_averaging_slots) invalid_depth t.averaging_buffer;
        averaging_slot_index = 0;
        pixel_stats = resize n no_statistics t.pixel_stats;
        valid_buffer = resize n (ratio 0 1) t.valid_buffer;
        frame_count = 0;
        stable_pixel_count = 0;
        unstable_pixel_count = 0;
      }

  unfoldable pub reset : TemporalFilter F → TemporalFilter F
  reset t = record t {
    averaging_buffer = replicate (length t.averaging_buffer) invalid_depth;
    valid_buffer = replicate (length t.valid_buffer) (ratio 0 1);
    pixel_stats = replicate (length t.pixel_stats) no_statistics;
    averaging_slot_index = 0;
    frame_count = 0;
    stable_pixel_count = 0;
    unstable_pixel_count = 0;
  }

  unfoldable pub update_config : FilterConfig F → TemporalFilter F → TemporalFilter F
  unfolding initialize
  update_config c t =
      let t' = record t { config = c } in
      let slots = length t.averaging_buffer / pixels t.width t.height in
      if ltb 0 t.width && ltb 0 t.height && not (slots == c.num_averaging_slots)
      then initialize t.width t.height t'
      else t'

  -- The slot of pixel `i` in the current frame of `n` pixels.
  abbrev pub slot_of : ℕ → ℕ → TemporalFilter F → ℕ
  slot_of n i t = i + t.averaging_slot_index * n

  -- The sample is recorded before stability is judged.
  unfoldable pub record_sample : ℕ → ℕ → F → TemporalFilter F → TemporalFilter F
  record_sample n i input t =
      let at = slot_of n i t in
      record t {
        averaging_buffer = set t.averaging_buffer at (height_to_buffer input);
        pixel_stats = set t.pixel_stats i (
            update_statistics input (get_or t.averaging_buffer at 0)
              (get_or t.pixel_stats i no_statistics));
      }

  unfoldable pub stable_pixel : ℕ → TemporalFilter F → F × TemporalFilter F
  stable_pixel i t =
      let st = get_or t.pixel_stats i no_statistics in
      let out = apply_hysteresis t.config st (get_mean st) in
      (
        out,
        record t {
          valid_buffer = set t.valid_buffer i out;
          pixel_stats =
              set t.pixel_stats i (record st { last_valid_value = out; is_stable = true });
          stable_pixel_count = inc32 t.stable_pixel_count;
        },
      )

  unfoldable pub unstable_pixel : ℕ → TemporalFilter F → F × TemporalFilter F
  unstable_pixel i t =
      let st = get_or t.pixel_stats i no_statistics in
      let retain = t.config.retain_valids in
      let held = get_or t.valid_buffer i (ratio 0 1) in
      let fallback = t.config.instable_value in
      (
        if retain then held else fallback,
        record t {
          valid_buffer = if retain then t.valid_buffer else set t.valid_buffer i fallback;
          pixel_stats = set t.pixel_stats i (record st { is_stable = false });
          unstable_pixel_count = inc32 t.unstable_pixel_count;
        },
      )

  unfoldable pub next_slot : TemporalFilter F → TemporalFilter F
  next_slot t =
      let next = inc32 t.averaging_slot_index in
      record t {
        averaging_slot_index = if leb t.config.num_averaging_slots next then 0 else next;
        frame_count = inc64 t.frame_count;
      }

  abbrev pub is_empty : List F → Bool
  is_empty [] = true
  is_empty (_ ∷ _) = false

  -- The filter for frames of `w` by `h`, set up again when the size changes.
  unfoldable pub fitted : ℤ → ℤ → TemporalFilter F → TemporalFilter F
  fitted w h t =
      if (to_u32 w == t.width) && (to_u32 h == t.height)
      then t
      else initialize (to_u32 w) (to_u32 h) t

  module _ {D : Type 0} ⦃d : Float D⦄ (narrow : D → F) where
    unfoldable pub judge_pixel : ℕ → TemporalFilter F → F × TemporalFilter F
    judge_pixel i t =
        if check_stability narrow t.config (get_or t.pixel_stats i no_statistics)
        then stable_pixel i t
        else unstable_pixel i t

    -- The body of the loop over the pixels.
    unfoldable pub filter_pixel : ℕ → ℕ → F → TemporalFilter F → F × TemporalFilter F
    filter_pixel n i input t =
        if is_finite input
        then judge_pixel i (record_sample n i input t)
        else (get_or t.valid_buffer i (ratio 0 1), t)

    -- The pixels from `i` on, of which `left` are to be filtered; values beyond stay.
    unfoldable pub filter_pixels : ℕ → ℕ → ℕ → List F → TemporalFilter F → List F × TemporalFilter F
    filter_pixels n i zero inputs t = (inputs, t)
    filter_pixels n i (suc left) [] t = ([], t)
    filter_pixels n i (suc left) (input ∷ inputs) t =
        let (out, t₁) = filter_pixel n i input t in
        let (outs, t₂) = filter_pixels n (i + 1) left inputs t₁ in (out ∷ outs, t₂)

    unfoldable pub filter_frame : List F → TemporalFilter F → List F × TemporalFilter F
    filter_frame inputs t =
        let n = min (length inputs) (pixels t.width t.height) in
        let start = record t { stable_pixel_count = 0; unstable_pixel_count = 0 } in
        let (outs, t') = filter_pixels n 0 n inputs start in (outs, next_slot t')

    unfoldable pub apply : List F → ℤ → ℤ → TemporalFilter F → List F × TemporalFilter F
    unfolding fitted
    apply inputs w h t =
        let t₁ = fitted w h t in
        if is_empty inputs || (t₁.width == 0) || (t₁.height == 0)
        then (inputs, t₁)
        else filter_frame inputs t₁
