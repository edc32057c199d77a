-- ===== src/Manager/Ready.antt =====
-- What a frame can be processed with, and the height map that the stages leave.
use caldera_sandbox.Base.{
  ℕ, ◌+◌, ◌*◌, ◌≤◌, ◌<◌, ◌≡◌, refl, ap, ◌∙◌, ◌&&◌, Option, some, List, All, arith, length, ◌>>=◌,
  ltb,
}
use caldera_sandbox.Base.Int.{ℤ, pos, pos_part, int_limit}
use caldera_sandbox.Base.Float.{Float}
use caldera_sandbox.Sensor.Data.{RawDepthFrame}
use caldera_sandbox.Temporal.Cloud.{heights, length-heights}
use caldera_sandbox.Fusion.Accumulator.{same_ℤ}
use caldera_sandbox.Fusion.Output.{int_max}
use caldera_sandbox.Blur.Gaussian.{ideal_width}
use caldera_sandbox.Manager.Counts.{build_and_validate-counts}
use caldera_sandbox.Manager.Gate.{adapt}
use caldera_sandbox.Manager.Stages.{Staged, running_stages}
use caldera_sandbox.Manager.Frame.{ProcessingManager, is_some, parameters_of, staged_heights}
use caldera_sandbox.Manager.Runs.{
  IsRunnable, IsSound, running_stages-IsRunnable, run_stages-IsSound,
}
use caldera_sandbox.Manager.Produced.{length-blend_previous}

-- A step that succeeds, and then a value with a property of it.
pub bind-some {ℓ κ μ} :
    {A : Type ℓ} {B : Type κ} {o : Option A} {a : A} (g : A → B) (Q : B → Type μ)
    → o ≡ some a
    → Q (g a)
    → (b : B) × ((o >>= λ x. some (g x)) ≡ some b) × Q b
bind-some {a = a} g Q e q = (g a, rw e refl, q)

module _ {F : Type 0} ⦃f : Float F⦄ (sqrt : F → F) (floor : F → ℕ) (round : F → ℤ) {S : Type 0}
    (filter : S → List F → ℤ → ℤ → List F × S) (raw : RawDepthFrame)
    (m : ProcessingManager F S) where
  open f use {ratio, is_finite}

  -- What a frame can be processed with: sides whose product, and the index of
  -- a column past the last row, fit an `int`, stages that find the filter they need, a
  -- deviation that the fast kernel can use, and a filter that keeps the size of a height map.
  pub record IsReady (w h : ℕ) : Type 0 where
    pub width : raw.width ≡ pos w
    pub height : raw.height ≡ pos h
    pub w_le : w ≤ int_max
    pub h_le : h ≤ int_max
    pub area : w * h < int_limit
    pub past_end : w * h + w ≤ int_limit
    pub stages : All (IsRunnable (is_some m.height_filter)) m.stages
    pub wide : 0 < ideal_width sqrt floor round m.kernels.sigma
    pub keeps : (t : S) (hs : List F) → length (filter t hs raw.width raw.height).0 ≡ length hs

  pub area-eq : (w h : ℕ) → IsReady w h → pos_part raw.width * pos_part raw.height ≡ w * h
  area-eq w h ready =
      ap (λ z. pos_part z * pos_part raw.height) ready.width ∙ ap (λ z. w * pos_part z) ready.height

  past_end-eq :
      (w h : ℕ)
      → IsReady w h
      → pos_part raw.width * pos_part raw.height + pos_part raw.width ≤ int_limit
  past_end-eq w h ready = omega (arith, area-eq w h ready, ap pos_part ready.width, ready.past_end)

  pub staged_heights-some :
      (w h : ℕ)
      → IsReady w h
      → (b : List F × ProcessingManager F S) × (staged_heights sqrt floor round filter raw m
          ≡ some b)
        × (length b.0 ≡ w * h)
  unfolding staged_heights
  staged_heights-some w h ready =
      let transform = parameters_of m.transform in
      let (cloud, counted, built, points, counts, again) =
        build_and_validate-counts (some transform) m.scale raw w h ready.width ready.height
          ready.area in
      let area : pos_part raw.width * pos_part raw.height < int_limit =
        omega (arith, area-eq w h ready, ready.area) in
      let small = past_end-eq w h ready in
      let has = is_some m.height_filter in
      let later = m.metrics_enabled && ltb 0 m.frame_counter in
      let adaptive =
        (adapt m.config (same_ℤ m.config.mode (pos 2) && later) m.measures.stability_ratio
          m.measures.ema_variance m.gate).0 in
      let s₀ : Staged F S = record {
        heights = heights cloud.points;
        kernels = m.kernels;
        height_filter = m.height_filter;
      } in
      let sound₀ : IsSound sqrt floor round filter m.settings adaptive raw.width raw.height (w * h)
          ready.keeps area small has s₀ =
        record { size = length-heights cloud.points ∙ points; wide = ready.wide; filters = refl } in
      let (s, e, sound) =
        run_stages-IsSound sqrt floor round filter m.settings adaptive raw.width raw.height (w * h)
          ready.keeps area small has (running_stages has m.stages) s₀
          (running_stages-IsRunnable has m.stages ready.stages) sound₀ in
      rw built (
        bind-some _ (λ b. length b.0 ≡ w * h) e
          (length-blend_previous m.config later m.measures m.previous s.heights ∙ sound.size))
