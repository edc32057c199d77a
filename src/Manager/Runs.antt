-- ===== src/Manager/Runs.antt =====
-- The stages run to their end and keep the size of the height map.
use caldera_sandbox.Base.{
  ℕ, ◌+◌, ◌*◌, ◌≤◌, ◌<◌, ◌≡◌, refl, ap, sym, ◌∙◌, Bool, true, false, ◌||◌, some, List, [], ◌∷◌, All,
  length, Option-cases, inl, inr,
}
use caldera_sandbox.Base.Int.{ℤ, pos_part, int_limit}
use caldera_sandbox.Base.Float.{Float}
use caldera_sandbox.Blur.Gaussian.{ideal_width}
use caldera_sandbox.Manager.Gate.{AdaptiveState}
use caldera_sandbox.Manager.Stages.{
  Stage, build, temporal, spatial, fusion, SpatialSettings, Staged, stage_of, stages_of,
  rebuild_pipeline_stages, default_pipeline, running_stages, run_stage, run_stages,
}
use caldera_sandbox.Manager.Frame.{is_some}
use caldera_sandbox.Manager.Sizes.{apply_spatial_filter-Keeps}

-- A stage that finds the filter it needs.
abbrev pub IsRunnable : Bool → Stage → Type 0
IsRunnable has_filter temporal = has_filter ≡ true
IsRunnable has_filter build = Unit
IsRunnable has_filter spatial = Unit
IsRunnable has_filter fusion = Unit

pub running_stages-IsRunnable :
    (has_filter : Bool) (stages : List Stage)
    → All (IsRunnable has_filter) stages
    → All (IsRunnable has_filter) (running_stages has_filter stages)
unfolding running_stages rebuild_pipeline_stages default_pipeline stages_of stage_of
running_stages-IsRunnable true [] ok = (tt, (refl, (tt, (tt, tt))))
running_stages-IsRunnable false [] ok = (tt, (tt, (tt, tt)))
running_stages-IsRunnable has_filter (s ∷ stages) ok = ok

module _ {F : Type 0} ⦃f : Float F⦄ (sqrt : F → F) (floor : F → ℕ) (round : F → ℤ) {S : Type 0}
    (filter : S → List F → ℤ → ℤ → List F × S) (set : SpatialSettings) (ad : AdaptiveState)
    (w h : ℤ) (n : ℕ) (keeps : (t : S) (hs : List F) → length (filter t hs w h).0 ≡ length hs)
    (area : pos_part w * pos_part h < int_limit)
    (small : pos_part w * pos_part h + pos_part w ≤ int_limit) where
  -- A height map of `n` values, and a deviation that the fast kernel can use.
  pub record IsSound (has_filter : Bool) (s : Staged F S) : Type 0 where
    pub size : length s.heights ≡ n
    pub wide : 0 < ideal_width sqrt floor round s.kernels.sigma
    pub filters : is_some s.height_filter ≡ has_filter

  run_temporal-eq :
      (s : Staged F S) (t : S)
      → s.height_filter ≡ some t
      → run_stage sqrt floor round filter set ad w h temporal s
        ≡ some (record s {
          heights = (filter t s.heights w h).0;
          height_filter = some (filter t s.heights w h).1;
        })
  unfolding run_stage
  run_temporal-eq s t set_to = rw set_to refl

  run_stage-IsSound :
      (has_filter : Bool) (stage : Stage) (s : Staged F S)
      → IsRunnable has_filter stage
      → IsSound has_filter s
      → (s' : Staged F S) × (run_stage sqrt floor round filter set ad w h stage s ≡ some s')
        × IsSound has_filter s'
  unfolding run_stage
  run_stage-IsSound has_filter build s ok sound = (s, refl, sound)
  run_stage-IsSound has_filter fusion s ok sound = (s, refl, sound)
  run_stage-IsSound has_filter spatial s ok sound =
      let (s', e, size, same) =
        apply_spatial_filter-Keeps sqrt floor round w h area small set.alt_kernel set.strong_kernel
          set.double_pass (set.static_enabled || ad.spatial_active) ad.strong_active
          (s.heights, s.kernels) sound.wide in
      (
        record s { heights = s'.0; kernels = s'.1 },
        rw e refl,
        record {
          size = size ∙ sound.size;
          wide = rw (ap (ideal_width sqrt floor round) same) sound.wide;
          filters = sound.filters;
        },
      )
  run_stage-IsSound has_filter temporal s ok sound = elim (Option-cases s.height_filter) [
    | inl none_set ↦ let clash : false ≡ true = sym (ap is_some none_set) ∙ sound.filters ∙ ok in cc
    | inr (t, set_to) ↦
        let (heights, t') = filter t s.heights w h in
        (
          record s { heights = heights; height_filter = some t' },
          run_temporal-eq s t set_to,
          record { size = keeps t s.heights ∙ sound.size; wide = sound.wide; filters = sym ok },
        )
  ]

  pub run_stages-IsSound :
      (has_filter : Bool) (stages : List Stage) (s : Staged F S)
      → All (IsRunnable has_filter) stages
      → IsSound has_filter s
      → (s' : Staged F S) × (run_stages sqrt floor round filter set ad w h stages s ≡ some s')
        × IsSound has_filter s'
  unfolding run_stages
  run_stages-IsSound has_filter [] s ok sound = (s, refl, sound)
  run_stages-IsSound has_filter (stage ∷ stages) s (one, ok) sound =
      let (s₁, e₁, sound₁) = run_stage-IsSound has_filter stage s one sound in
      let (s₂, e₂, sound₂) = run_stages-IsSound has_filter stages s₁ ok sound₁ in
      (s₂, rw e₁ e₂, sound₂)
