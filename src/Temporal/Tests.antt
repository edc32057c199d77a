-- ===== src/Temporal/Tests.antt =====
-- The filter on frames of two pixels and two slots, and its theorems there.
use native.Mathlib.Omega.{arith}
use caldera_sandbox.Base.{
  ℕ, ◌*◌, ◌/◌, ◌<◌, ◌≡◌, refl, not, true, false, none, some, [], ◌∷◌, List, get_or, take,
}
use caldera_sandbox.Base.Int.{ℤ, pos, negsuc, pos_part, ltb_ℤ}
use caldera_sandbox.Base.Fixed.{Fixed, fixed_float, by_sign}
use caldera_sandbox.Temporal.Pixel.{
  FilterConfig, no_statistics, update_statistics, height_to_buffer, get_mean, apply_hysteresis,
  check_stability,
}
use caldera_sandbox.Temporal.Filter.{
  TemporalFilter, create, initialize, apply, fitted, filter_frame, filter_pixels, filter_pixel,
  judge_pixel, stable_pixel, unstable_pixel, record_sample, next_slot,
}
use caldera_sandbox.Temporal.Consistent.{IsNumber, IsConsistent, window}
use caldera_sandbox.Temporal.Frames.{apply-IsConsistent}
use caldera_sandbox.Temporal.Cloud.{InternalPointCloud}
use caldera_sandbox.Temporal.Runs.{
  Call, applies, processes, resets, calls, calls-initialize-IsConsistent,
}
use caldera_sandbox.Temporal.Statistics.{get_statistics}
use caldera_sandbox.Temporal.Fresh.{initialize-IsConsistent, initialize_keeps}
use caldera_sandbox.Temporal.Counts.{finite_count, judged, filter_frame-judged}

abbrev config : FilterConfig Fixed
config = record {
  num_averaging_slots = 2;
  min_num_samples = 2;
  max_variance = some (pos 10_000_000);
  hysteresis = some (pos 100_000);
  retain_valids = true;
  instable_value = some (pos 0);
}

abbrev same : Fixed → Fixed
same x = x

abbrev metres : ℕ → Fixed
metres n = some (pos (n * 1_000_000))

whole-lt :
    (z : ℤ) (n : ℕ)
    → ltb_ℤ z (pos 0) ≡ false
    → not (ltb_ℤ z (pos (n * 1_000_000))) ≡ false
    → pos_part z / 1_000_000 < n
whole-lt (pos m) n e e' = ground arith
whole-lt (negsuc m) n e e' = ground arith

fixed-truncate_lt :
    (x : Fixed) (n : ℕ)
    → fixed_float.is_finite x ≡ true
    → fixed_float.lt (fixed_float.mul x (fixed_float.ratio 1000 1)) (fixed_float.ratio 0 1) ≡ false
    → fixed_float.le (fixed_float.of_ℕ n) (fixed_float.mul x (fixed_float.ratio 1000 1)) ≡ false
    → fixed_float.truncate (fixed_float.mul x (fixed_float.ratio 1000 1)) < n
fixed-truncate_lt none n finite e e' = cc
fixed-truncate_lt (some a) n finite e e' =
    whole-lt (by_sign (λ x y. x * y / 1_000_000) a (pos 1_000_000_000)) n e e'

fixed-IsNumber : IsNumber fixed_float
fixed-IsNumber = record { truncate_lt = fixed-truncate_lt }

abbrev fresh : TemporalFilter Fixed
fresh = initialize 2 1 (create config)

abbrev frame : List Fixed
frame = metres 1 ∷ none ∷ []

-- After a frame, and after a second one.
abbrev once : TemporalFilter Fixed
once = (apply same frame (pos 2) (pos 1) fresh).1

fresh-IsConsistent : IsConsistent 2 fresh
fresh-IsConsistent = initialize-IsConsistent 2 1 config (omega arith) (omega arith)

-- The pixel is stable from the second frame on: then the result is the mean.
means : (apply same frame (pos 2) (pos 1) once).0 ≡ (metres 1 ∷ some (pos 0) ∷ [])
unfolding apply fitted filter_frame filter_pixels filter_pixel judge_pixel stable_pixel
    unstable_pixel record_sample update_statistics height_to_buffer get_mean apply_hysteresis
    check_stability next_slot initialize create
means = refl

once-IsConsistent : IsConsistent 2 once
unfolding initialize create
once-IsConsistent =
    apply-IsConsistent same frame (pos 2) (pos 1) fresh fixed-IsNumber refl refl (omega arith)
      fresh-IsConsistent

-- From two pixels to one.
initialize_keeps_example :
    (get_or (initialize 1 1 once).pixel_stats 0 no_statistics
      ≡ get_or once.pixel_stats 0 no_statistics)
    × (window 1 0 (initialize 1 1 once).averaging_buffer 1 ≡ get_or once.averaging_buffer 1 0)
unfolding apply fitted filter_frame filter_pixels filter_pixel judge_pixel stable_pixel
    unstable_pixel record_sample update_statistics height_to_buffer get_mean apply_hysteresis
    check_stability next_slot initialize create
initialize_keeps_example =
    initialize_keeps 1 1 0 1 once (omega arith) (omega arith) (omega arith) (omega arith)

filter_frame-judged_example : judged (filter_frame same frame fresh).1 ≡ finite_count (take 2 frame)
unfolding initialize create
filter_frame-judged_example = filter_frame-judged same frame fresh

abbrev cloud : InternalPointCloud Fixed
cloud = record {
  timestamp_ns = 1;
  points =
      record { x = metres 0; y = metres 0; z = metres 1; valid = true }
      ∷ record { x = metres 1; y = metres 0; z = metres 1; valid = false }
      ∷ [];
  width = pos 2;
  height = pos 1;
}

-- A frame, a reset and a cloud.
abbrev life : List (Call Fixed)
life = applies frame (pos 2) (pos 1) ∷ resets ∷ processes cloud ∷ []

calls-initialize-IsConsistent_example :
    IsConsistent 2 (calls same life (initialize 2 1 (create config)))
calls-initialize-IsConsistent_example =
    calls-initialize-IsConsistent same life 2 1 config fixed-IsNumber (omega arith) (omega arith)
      ((refl, refl, omega arith), (tt, ((refl, refl, omega arith), tt)))

-- One of the two pixels has a height, and it is not stable yet.
counted : (get_statistics same once).unstable_pixels ≡ 1
unfolding apply fitted filter_frame filter_pixels filter_pixel judge_pixel stable_pixel
    unstable_pixel record_sample update_statistics height_to_buffer get_mean apply_hysteresis
    check_stability next_slot initialize create get_statistics
counted = refl
