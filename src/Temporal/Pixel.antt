-- ===== src/Temporal/Pixel.antt =====
-- `TemporalFilter::PixelStatistics`, and what the filter does with one pixel. `F` is `float` and `D` is
-- `double`; `narrow` is the conversion from `D` to `F`.
use caldera_sandbox.Base.{ℕ, ◌-◌, ◌*◌, Bool, false, ◌&&◌, ◌==◌, leb, if◌then◌else◌}
use caldera_sandbox.Base.Words.{inc32, sub32, add64, sub64}
use caldera_sandbox.Base.Float.{Float}

-- The fields that the code reads. (The update rates and `enableSpatialFilter` are never read.)
pub record FilterConfig (F : Type 0) : Type 0 where
  pub num_averaging_slots : ℕ
  pub min_num_samples : ℕ
  pub max_variance : F
  pub hysteresis : F
  pub retain_valids : Bool
  pub instable_value : F

pub record PixelStatistics (F : Type 0) : Type 0 where
  pub num_samples : ℕ
  pub sum_samples : ℕ
  pub sum_squares : ℕ
  pub last_valid_value : F
  pub is_stable : Bool

abbrev pub invalid_depth : ℕ
invalid_depth = 2048

module _ {F : Type 0} ⦃f : Float F⦄ where
  open f use {of_ℕ, truncate, ratio, sub, mul, div, abs, lt, le}

  abbrev pub no_statistics : PixelStatistics F
  no_statistics = record {
    num_samples = 0;
    sum_samples = 0;
    sum_squares = 0;
    last_valid_value = ratio 0 1;
    is_stable = false;
  }

  abbrev pub height_scale : F
  height_scale = ratio 1000 1

  unfoldable pub height_to_buffer : F → ℕ
  height_to_buffer height =
      let mm = mul height height_scale in
      if lt mm (ratio 0 1)
      then 0
      else (if le (of_ℕ invalid_depth) mm then invalid_depth - 1 else truncate mm)

  unfoldable pub get_mean : PixelStatistics F → F
  get_mean st =
      if st.num_samples == 0
      then ratio 0 1
      else div (div (of_ℕ st.sum_samples) (of_ℕ st.num_samples)) (ratio 1000 1)

  -- `updatePixelStatistics`: the new sample comes in, and the one that it replaces goes out.
  unfoldable pub add_sample : ℕ → PixelStatistics F → PixelStatistics F
  add_sample new st = record st {
    num_samples = inc32 st.num_samples;
    sum_samples = add64 st.sum_samples new;
    sum_squares = add64 st.sum_squares (new * new);
  }

  unfoldable pub drop_sample : ℕ → PixelStatistics F → PixelStatistics F
  drop_sample old st = if old == invalid_depth then st else record st {
    num_samples = sub32 st.num_samples 1;
    sum_samples = sub64 st.sum_samples old;
    sum_squares = sub64 st.sum_squares (old * old);
  }

  unfoldable pub clear_if_empty : PixelStatistics F → PixelStatistics F
  clear_if_empty st =
      if st.num_samples == 0 then record st { sum_samples = 0; sum_squares = 0 } else st

  unfoldable pub update_statistics : F → ℕ → PixelStatistics F → PixelStatistics F
  unfolding add_sample drop_sample clear_if_empty
  update_statistics value old st =
      clear_if_empty (drop_sample old (add_sample (height_to_buffer value) st))

  unfoldable pub apply_hysteresis : FilterConfig F → PixelStatistics F → F → F
  apply_hysteresis c st new =
      let moved = abs (sub (mul new height_scale) (mul st.last_valid_value height_scale)) in
      if le c.hysteresis moved then new else st.last_valid_value

  module _ {D : Type 0} ⦃d : Float D⦄ (narrow : D → F) where
    unfoldable pub get_variance : PixelStatistics F → F
    get_variance st =
        let count = d.of_ℕ st.num_samples in
        let mean = d.div (d.of_ℕ st.sum_samples) count in
        let variance = d.sub (d.div (d.of_ℕ st.sum_squares) count) (d.mul mean mean) in
        if leb st.num_samples 1
        then ratio 1_000_000 1
        else narrow (if d.lt (d.ratio 0 1) variance then variance else d.ratio 0 1)

    unfoldable pub check_stability : FilterConfig F → PixelStatistics F → Bool
    unfolding get_variance
    check_stability c st =
        leb c.min_num_samples st.num_samples && le (get_variance st) c.max_variance
