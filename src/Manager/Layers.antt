-- ===== src/Manager/Layers.antt =====
-- `processRawDepthFrame` after the stages: the blend with the previous frame, and the layers that are fused.
use caldera_sandbox.Base.{
  ℕ, Bool, ◌&&◌, Option, none, some, List, [], ◌∷◌, ◌==◌, if◌then◌else◌, length, replicate, ◌>>=◌,
}
use caldera_sandbox.Base.Int.{ℤ}
use caldera_sandbox.Base.Float.{Float}
use caldera_sandbox.Fusion.Accumulator.{
  FusionInputLayer, FusionAccumulator, begin_frame, add_layer, fuse,
}
use caldera_sandbox.Manager.Gate.{AdaptiveConfig, is_unstable}
use caldera_sandbox.Manager.Metrics.{Measures}

module _ {F : Type 0} ⦃f : Float F⦄ where
  open f use {ratio, add, sub, mul, div, lt, is_finite}

  -- Each current value with the previous one, where both are finite.
  unfoldable pub blend : F → List F → List F → List F
  blend alpha [] cs = cs
  blend alpha (p ∷ ps) [] = []
  blend alpha (p ∷ ps) (c ∷ cs) =
      (if is_finite p && is_finite c then add (mul alpha c) (mul (sub (ratio 1 1) alpha) p) else c)
      ∷ blend alpha ps cs

  unfoldable pub blend_previous :
      AdaptiveConfig F → Bool → Measures F → Option (List F) → List F → List F
  unfolding blend is_unstable
  blend_previous c active m none current = current
  blend_previous c active m (some previous) current =
      if lt (ratio 1 1) c.temporal_scale
        && active
        && is_unstable c m.stability_ratio m.ema_variance
        && (length previous == length current)
      then blend (div (ratio 1 1) c.temporal_scale) previous current
      else current

  unfoldable pub shifted : F → List F → List F
  shifted shift [] = []
  shifted shift (v ∷ vs) = (if is_finite v then add v shift else v) ∷ shifted shift vs

  unfoldable pub normalized : List F → List F
  normalized [] = []
  normalized (v ∷ vs) = (if is_finite v then v else ratio 0 1) ∷ normalized vs

  -- `assign` when the size is another one.
  unfoldable pub sized : ℕ → List F → List F
  sized n buffer = if length buffer == n then buffer else replicate n (ratio 0 1)

  unfoldable pub layer_of : ℕ → ℤ → ℤ → Option (List F) → List F → FusionInputLayer F
  layer_of id w h confidence values = record {
    sensor_id = id;
    heights = some values;
    confidence = confidence;
    width = w;
    height = h;
  }

  unfoldable pub add_duplicate :
      ℕ
      → ℤ
      → ℤ
      → Option (List F)
      → Option F
      → List F
      → FusionAccumulator F
      → Option (FusionAccumulator F)
  unfolding add_layer layer_of shifted
  add_duplicate id w h confidence none values a = some a
  add_duplicate id w h confidence (some shift) values a =
      add_layer (layer_of id w h confidence (shifted shift values)) a

  -- The layers of a frame, fused and without holes. The layers have the numbers `ids` and the confidences
  -- `confidences`, if there are any.
  unfoldable pub fuse_frame :
      ℕ
      → ℕ × ℕ
      → ℤ
      → ℤ
      → Option (List F) × Option (List F)
      → Option F
      → List F
      → List F
      → FusionAccumulator F
      → Option (List F × FusionAccumulator F)
  unfolding add_duplicate layer_of begin_frame add_layer fuse normalized
  fuse_frame counter ids w h confidences duplicate values out a =
      add_layer (layer_of ids.0 w h confidences.0 values) (begin_frame counter w h a) >>= λ a₁.
      (add_duplicate ids.1 w h confidences.1 duplicate values a₁ >>= λ a₂.
      (fuse out none a₂ >>= λ (fused, _). some (normalized fused, a₂)))
