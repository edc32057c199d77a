-- ===== src/Manager/Stages.antt =====
-- The stages: `rebuildPipelineStages`, the default pipeline and the loop of `processRawDepthFrame` over
-- them. The height map filter is an interface; its state and its `apply` are arguments.
use caldera_sandbox.Base.{
  ℕ, Bool, ◌||◌, Option, none, some, List, [], ◌∷◌, ◌++◌, if◌then◌else◌, ◌>>=◌,
}
use caldera_sandbox.Base.Int.{ℤ}
use caldera_sandbox.Base.Float.{Float}
use caldera_sandbox.Manager.Gate.{AdaptiveState}
use caldera_sandbox.Manager.Kernels.{AltKernel, StrongKernel, Kernels, apply_spatial_filter}

-- The name of a stage in a specification, as far as it is told apart. The parameters of a stage have no
-- effect on the loop.
pub data StageName : Type 0 where
  name_build name_temporal name_spatial name_fusion name_unknown : StageName

pub data Stage : Type 0 where
  build temporal spatial fusion : Stage

-- Whether a height map filter is set decides about the temporal stage.
unfoldable pub stage_of : Bool → StageName → List Stage
stage_of has_filter name_build = build ∷ []
stage_of has_filter name_temporal = if has_filter then temporal ∷ [] else []
stage_of has_filter name_spatial = spatial ∷ []
stage_of has_filter name_fusion = fusion ∷ []
stage_of has_filter name_unknown = []

unfoldable pub stages_of : Bool → List StageName → List Stage
unfolding stage_of
stages_of has_filter [] = []
stages_of has_filter (name ∷ names) = stage_of has_filter name ++ stages_of has_filter names

-- `none` is a specification that is not valid.
unfoldable pub rebuild_pipeline_stages : Bool → Option (List StageName) → List Stage
unfolding stages_of
rebuild_pipeline_stages has_filter none = []
rebuild_pipeline_stages has_filter (some names) = stages_of has_filter names

unfoldable pub default_pipeline : Bool → List StageName
default_pipeline has_filter =
    name_build ∷ (if has_filter then name_temporal ∷ [] else []) ++ name_spatial ∷ name_fusion ∷ []

-- The stages that run: the default ones when there are none.
unfoldable pub running_stages : Bool → List Stage → List Stage
unfolding rebuild_pipeline_stages default_pipeline
running_stages has_filter [] =
    rebuild_pipeline_stages has_filter (some (default_pipeline has_filter))
running_stages has_filter (s ∷ stages) = s ∷ stages

-- What the environment says about the spatial stage.
pub record SpatialSettings : Type 0 where
  pub static_enabled : Bool
  pub alt_kernel : AltKernel
  pub strong_kernel : StrongKernel
  pub double_pass : Bool

-- The height map and what the stages keep between frames.
pub record Staged (F S : Type 0) : Type 0 where
  pub heights : List F
  pub kernels : Kernels F
  pub height_filter : Option S

module _ {F : Type 0} ⦃f : Float F⦄ (sqrt : F → F) (floor : F → ℕ) (round : F → ℤ) {S : Type 0}
    (filter : S → List F → ℤ → ℤ → List F × S) where
  -- A filter that was taken away after the temporal stage was made is a null pointer: `none`.
  unfoldable pub run_stage :
      SpatialSettings → AdaptiveState → ℤ → ℤ → Stage → Staged F S → Option (Staged F S)
  unfolding apply_spatial_filter
  run_stage set ad w h build s = some s
  run_stage set ad w h fusion s = some s
  run_stage set ad w h temporal s = elim s.height_filter [
    | none ↦ none
    | some t ↦
        let (heights, t') = filter t s.heights w h in
        some (record s { heights = heights; height_filter = some t' })
  ]
  run_stage set ad w h spatial s =
      apply_spatial_filter sqrt floor round set.alt_kernel set.strong_kernel set.double_pass
        (set.static_enabled || ad.spatial_active) ad.strong_active w h (s.heights, s.kernels)
      >>= λ (heights, kernels). some (record s { heights = heights; kernels = kernels })

  unfoldable pub run_stages :
      SpatialSettings → AdaptiveState → ℤ → ℤ → List Stage → Staged F S → Option (Staged F S)
  unfolding run_stage
  run_stages set ad w h [] s = some s
  run_stages set ad w h (stage ∷ stages) s =
      run_stage set ad w h stage s >>= run_stages set ad w h stages
