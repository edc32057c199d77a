-- ===== src/Manager/Frame.antt =====
-- `processRawDepthFrame`: from a raw depth frame to the world frame that the callback gets. The metrics that
-- the gating reads are kept; the other ones, logging, clocks and reserved capacities are left out.
use caldera_sandbox.Base.{
  ℕ, ◌*◌, Bool, true, false, ◌&&◌, Option, none, some, List, map, ltb, if◌then◌else◌, ◌>>=◌,
}
use caldera_sandbox.Base.Int.{ℤ, pos, pos_part}
use caldera_sandbox.Base.Words.{inc64}
use caldera_sandbox.Base.Float.{Float}
use caldera_sandbox.World.{WorldFrame}
use caldera_sandbox.Sensor.Data.{RawDepthFrame}
use caldera_sandbox.Temporal.Cloud.{heights}
use caldera_sandbox.Fusion.Accumulator.{FusionAccumulator, same_ℤ}
use caldera_sandbox.Manager.Points.{
  TransformParameters, FrameValidationSummary, build_and_validate_point_cloud, recalculated_invalid,
}
use caldera_sandbox.Manager.Gate.{Gate, AdaptiveConfig, adapt}
use caldera_sandbox.Manager.Metrics.{Measures, update_metrics}
use caldera_sandbox.Manager.Kernels.{Kernels}
use caldera_sandbox.Manager.Stages.{Stage, SpatialSettings, running_stages, run_stages}
use caldera_sandbox.Manager.Layers.{blend_previous, sized, fuse_frame}

-- `duplicate` is the shift of the second layer, when there is to be one. `transform` is `none` until
-- parameters are set. Planes and offsets that the environment gives are among them from the start.
pub record ProcessingManager (F S : Type 0) : Type 0 where
  pub frame_counter : ℕ
  pub scale : F
  pub transform : Option (TransformParameters F)
  pub fusion : FusionAccumulator F
  pub metrics_enabled : Bool
  pub measures : Measures F
  pub config : AdaptiveConfig F
  pub gate : Gate
  pub settings : SpatialSettings
  pub stages : List Stage
  pub kernels : Kernels F
  pub height_filter : Option S
  pub previous : Option (List F)
  pub summary : FrameValidationSummary
  pub duplicate : Option F
  pub fused_heights : List F

abbrev pub is_some {ℓ} : {A : Type ℓ} → Option A → Bool
is_some none = false
is_some (some a) = true

module _ {F : Type 0} ⦃f : Float F⦄ where
  open f use {ratio, sub}

  -- Every positive depth up to 2 metres.
  unfoldable pub fallback_parameters : TransformParameters F
  fallback_parameters = record {
    min_valid_plane = record {
      a = ratio 0 1;
      b = ratio 0 1;
      c = ratio 1 1;
      d = sub (ratio 0 1) (ratio 0 1);
    };
    max_valid_plane = record {
      a = ratio 0 1;
      b = ratio 0 1;
      c = ratio 1 1;
      d = sub (ratio 0 1) (ratio 2 1);
    };
  }

  unfoldable pub parameters_of : Option (TransformParameters F) → TransformParameters F
  unfolding fallback_parameters
  parameters_of none = fallback_parameters
  parameters_of (some t) = t

module _ {F : Type 0} ⦃f : Float F⦄ (sqrt : F → F) (floor : F → ℕ) (round : F → ℤ) {S : Type 0}
    (filter : S → List F → ℤ → ℤ → List F × S) where
  -- The height map that is fused, with what the gating and the stages keep.
  unfoldable pub staged_heights :
      RawDepthFrame → ProcessingManager F S → Option (List F × ProcessingManager F S)
  unfolding build_and_validate_point_cloud heights recalculated_invalid parameters_of adapt
      running_stages run_stages blend_previous
  staged_heights raw m =
      let transform = parameters_of m.transform in
      build_and_validate_point_cloud (some transform) m.scale raw >>= λ (cloud, counted).
      (let summary = record counted { invalid = recalculated_invalid cloud.points 0 } in
        let later = m.metrics_enabled && ltb 0 m.frame_counter in
        let (adaptive, gate) =
          adapt m.config (same_ℤ m.config.mode (pos 2) && later) m.measures.stability_ratio
            m.measures.ema_variance m.gate in
        let stages = running_stages (is_some m.height_filter) m.stages in
        run_stages sqrt floor round filter m.settings adaptive raw.width raw.height stages (record {
          heights = heights cloud.points;
          kernels = m.kernels;
          height_filter = m.height_filter;
        })
        >>= λ s. some (
          blend_previous m.config later m.measures m.previous s.heights,
          record m {
            transform = some transform;
            summary = summary;
            gate = gate;
            stages = stages;
            kernels = s.kernels;
            height_filter = s.height_filter;
          },
        ))

-- `bits` is the memory image of a float, `dup_id` the number of a sensor's second layer.
module _ {F : Type 0} ⦃f : Float F⦄ {D : Type 0} ⦃d : Float D⦄ (widen : F → D) (narrow : D → F)
    (sqrt : F → F) (floor : F → ℕ) (round : F → ℤ) (bits : F → ℕ) (dup_id : ℕ → ℕ) {S : Type 0}
    (filter : S → List F → ℤ → ℤ → List F × S) where
  open f use {ratio, lt}

  -- The frame for the callback. The layers' confidences, if there are any, are given.
  unfoldable pub process_raw_depth_frame :
      Option (List F) × Option (List F)
      → RawDepthFrame
      → ProcessingManager F S
      → Option (WorldFrame × ProcessingManager F S)
  unfolding staged_heights sized fuse_frame update_metrics
  process_raw_depth_frame confidences raw m =
      let w = pos_part raw.width in
      let h = pos_part raw.height in
      staged_heights sqrt floor round filter raw m >>= λ (values, m₁).
      (fuse_frame m.frame_counter (raw.sensor_id, dup_id raw.sensor_id) raw.width raw.height
          confidences m.duplicate values (sized (w * h) m.fused_heights) m.fusion
        >>= λ (fused, fusion).
            ((if m.metrics_enabled
                then update_metrics widen narrow fused w h m.measures
                else some m.measures)
              >>= λ measures. some (
                record {
                  timestamp_ns = raw.timestamp_ns;
                  frame_id = m.frame_counter;
                  height_map = record {
                    width = raw.width;
                    height = raw.height;
                    data_words = map bits fused;
                  };
                  checksum = 0;
                },
                record m₁ {
                  frame_counter = inc64 m.frame_counter;
                  fusion = fusion;
                  measures = measures;
                  previous =
                      if lt (ratio 1 1) m.config.temporal_scale then some values else m.previous;
                  fused_heights = fused;
                },
              )))
