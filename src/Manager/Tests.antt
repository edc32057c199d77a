-- ===== src/Manager/Tests.antt =====
-- A frame of two by two pixels.
use caldera_sandbox.Base.{
  ℕ, ◌+◌, ◌*◌, ◌≡◌, refl, inl, true, false, none, some, List, [], ◌∷◌, arith, length,
}
use caldera_sandbox.Base.Int.{ℤ, pos, pos_part}
use caldera_sandbox.Base.Words.{inc64}
use caldera_sandbox.Base.Fixed.{Fixed, fixed_float}
use caldera_sandbox.World.{WorldFrame}
use caldera_sandbox.Sensor.Data.{RawDepthFrame}
use caldera_sandbox.Fusion.Accumulator.{fresh}
use caldera_sandbox.Spatial.Kernel.{wide5}
use caldera_sandbox.Blur.Gaussian.{ideal_width}
use caldera_sandbox.Temporal.Cloud.{InternalPointCloud}
use caldera_sandbox.Manager.Points.{
  FrameValidationSummary, build_and_validate_point_cloud, recalculated_invalid,
}
use caldera_sandbox.Manager.Counts.{build_and_validate-counts}
use caldera_sandbox.Manager.Gate.{new_gate, run_gate}
use caldera_sandbox.Manager.Streaks.{gate_of, run_gate-gate_of}
use caldera_sandbox.Manager.Kernels.{alt_fastgauss, classic_double}
use caldera_sandbox.Manager.Frame.{ProcessingManager, process_raw_depth_frame}
use caldera_sandbox.Manager.Ready.{IsReady}
use caldera_sandbox.Manager.Whole.{IsFrame, process_raw_depth_frame-IsFrame}

abbrev pub raw_1 : RawDepthFrame
raw_1 = record {
  sensor_id = 1;
  timestamp_ns = 900;
  width = pos 2;
  height = pos 2;
  samples = 1200 ∷ 0 ∷ 900 ∷ [];
}

build_and_validate-counts_example :
    (cloud : InternalPointCloud Fixed) × (s : FrameValidationSummary)
    × (build_and_validate_point_cloud none (some (pos 1000)) raw_1 ≡ some (cloud, s))
    × (length cloud.points ≡ 2 * 2)
    × (s.valid + s.invalid ≡ 2 * 2)
    × (recalculated_invalid cloud.points 0 ≡ s.invalid)
build_and_validate-counts_example =
    build_and_validate-counts none (some (pos 1000)) raw_1 2 2 refl refl (omega arith)

-- Two unstable frames switch the gate on, three stable ones switch it off; the last frame stands first.
run_gate-gate_of_example :
    (run_gate (pos 2) (pos 3) (false ∷ false ∷ true ∷ true ∷ false ∷ [])).active
    ≡ gate_of 2 3 (false ∷ false ∷ true ∷ true ∷ false ∷ [])
run_gate-gate_of_example =
    run_gate-gate_of (pos 2) (pos 3) (false ∷ false ∷ true ∷ true ∷ false ∷ []) (omega arith)
      (omega arith) (omega arith)

abbrev pub same : Fixed → Fixed
same x = x

abbrev pub three : Fixed → ℕ
three x = 3

abbrev pub all_wide : Fixed → ℤ
all_wide x = pos 3

-- The filter that does nothing.
abbrev pub no_op : ℕ → List Fixed → ℤ → ℤ → List Fixed × ℕ
no_op t heights w h = (heights, t)

abbrev pub image : Fixed → ℕ
image none = 0
image (some z) = pos_part z

abbrev pub twice : ℕ → ℕ
twice n = 2 * n

abbrev pub manager_1 : ProcessingManager Fixed ℕ
manager_1 = record {
  frame_counter = 1;
  scale = some (pos 1000);
  transform = none;
  fusion = fresh;
  metrics_enabled = true;
  measures = record { ema_variance = some (pos 0); stability_ratio = some (pos 0) };
  config = record {
    mode = pos 2;
    stability_min = some (pos 850_000);
    variance_max = some (pos 20_000);
    on_streak = pos 1;
    off_streak = pos 3;
    strong_var_mult = some (pos 2_000_000);
    strong_stab_frac = some (pos 750_000);
    temporal_scale = some (pos 2_000_000);
    strong_double_pass = true;
  };
  gate = new_gate;
  settings = record {
    static_enabled = false;
    alt_kernel = alt_fastgauss;
    strong_kernel = classic_double;
    double_pass = true;
  };
  stages = [];
  kernels = record {
    classic = record { mode = wide5; nan_aware = true };
    sigma = some (pos 1_500_000);
    temp = [];
  };
  height_filter = some 0;
  previous = none;
  summary = record { valid = 0; invalid = 0 };
  duplicate = none;
  fused_heights = [];
}

pub manager_1-IsReady : IsReady same three all_wide no_op raw_1 manager_1 2 2
unfolding ideal_width
manager_1-IsReady = record {
  width = refl;
  height = refl;
  w_le = omega arith;
  h_le = omega arith;
  area = omega arith;
  past_end = omega arith;
  stages = tt;
  wide = omega arith;
  keeps = λ t hs. refl;
}

process_raw_depth_frame-IsFrame_example :
    (b : WorldFrame × ProcessingManager Fixed ℕ) × (process_raw_depth_frame same same same three
        all_wide image twice no_op
        (none, none)
        raw_1
        manager_1
      ≡ some b)
    × (IsFrame same three all_wide no_op raw_1 manager_1 2 2 image b.0
        × (b.1.frame_counter ≡ inc64 1))
process_raw_depth_frame-IsFrame_example =
    process_raw_depth_frame-IsFrame same three all_wide no_op raw_1 manager_1 same same image twice
      2 2 (none, none) manager_1-IsReady refl (inl refl) refl
