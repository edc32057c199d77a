-- ===== src/Fusion/Frame.antt =====
-- A whole frame: `beginFrame`, one or two calls of `addLayer`, and `fuse`.
use caldera_sandbox.Base.{
  ℕ, ◌*◌, ◌≤◌, ◌<◌, ◌≡◌, refl, ap, ◌∙◌, Option, none, some, List, arith, length, take, length-take,
  take_all, ◌>>=◌,
}
use caldera_sandbox.Base.Int.{pos, int_limit}
use caldera_sandbox.Base.Float.{Float}
use caldera_sandbox.Fusion.Accumulator.{
  FusionInputLayer, FusionAccumulator, begin_frame, append_layer, add_layer, fuse_layers, fuse,
  span,
}
use caldera_sandbox.Fusion.Rows.{beside, span-inside}
use caldera_sandbox.Fusion.Output.{
  IsReadable, int_max, pixel_count-eq, add_layer-readable, fuse_layers-two,
}

module _ {F : Type 0} ⦃f : Float F⦄ where
  fuse-eq :
      (out ys : List F) (a : FusionAccumulator F)
      → fuse_layers a.layers out a ≡ some ys
      → fuse out none a ≡ some (ys, none)
  unfolding fuse
  fuse-eq out ys a e = ap (λ m. m >>= λ heights. some (heights, none)) e

  -- The first layer of a frame.
  begun-readable :
      (id w h : ℕ) (layer : FusionInputLayer F) (hs : List F) (a : FusionAccumulator F)
      → w ≤ int_max
      → h ≤ int_max
      → IsReadable w h layer hs
      → (cs : Option (List F)) × (add_layer layer (begin_frame id (pos w) (pos h) a)
          ≡ some (
              append_layer layer.sensor_id (take (w * h) hs) cs (begin_frame id (pos w) (pos h) a)))
  unfolding begin_frame
  begun-readable id w h layer hs a w_le h_le ok =
      add_layer-readable w h layer hs (begin_frame id (pos w) (pos h) a) ok refl refl
        (pixel_count-eq w h w_le h_le)

  -- A frame, each side at most 2^31 - 1, with one readable layer of that size: the output is the layer's
  -- values.
  pub fuse-one :
      (id w h : ℕ) (layer : FusionInputLayer F) (hs out : List F) (a : FusionAccumulator F)
      → w ≤ int_max
      → h ≤ int_max
      → IsReadable w h layer hs
      → (add_layer layer (begin_frame id (pos w) (pos h) a) >>= fuse out none)
        ≡ some (take (w * h) hs, none)
  unfolding fuse_layers append_layer begin_frame
  fuse-one id w h layer hs out a w_le h_le ok =
      let (cs, ran) = begun-readable id w h layer hs a w_le h_le ok in
      let ts = take (w * h) hs in
      let size : length ts ≡ w * h = omega (arith, length-take (w * h) hs, ok.enough) in
      let one = append_layer layer.sensor_id ts cs (begin_frame id (pos w) (pos h) a) in
      ap (λ m. m >>= fuse out none) ran
      ∙ fuse-eq out ts one (
          ap (λ n. span 0 n ts) (pixel_count-eq w h w_le h_le)
          ∙ span-inside 0 (w * h) ts (omega (arith, size))
          ∙ ap some (take_all (w * h) ts (omega (arith, size))))

  -- A frame with positive sides and fewer than 2^31 values for both layers together, with two readable layers
  -- of that size: nothing is read or written out of bounds, and each row of the output is the first layer's row followed by the
  -- second layer's.
  pub fuse-two :
      (id w h : ℕ) (l₁ l₂ : FusionInputLayer F) (xs ys out : List F) (a : FusionAccumulator F)
      → 0 < w
      → 0 < h
      → w ≤ int_max
      → h ≤ int_max
      → 2 * (w * h) < int_limit
      → IsReadable w h l₁ xs
      → IsReadable w h l₂ ys
      → (add_layer l₁ (begin_frame id (pos w) (pos h) a) >>= add_layer l₂ >>= fuse out none)
        ≡ some (beside w h (take (w * h) xs) (take (w * h) ys), none)
  unfolding append_layer begin_frame
  fuse-two id w h l₁ l₂ xs ys out a w_pos h_pos w_le h_le small ok₁ ok₂ =
      let (cs₁, ran₁) = begun-readable id w h l₁ xs a w_le h_le ok₁ in
      let t₁ = take (w * h) xs in
      let t₂ = take (w * h) ys in
      let one = append_layer l₁.sensor_id t₁ cs₁ (begin_frame id (pos w) (pos h) a) in
      let (cs₂, ran₂) =
        add_layer-readable w h l₂ ys one ok₂ refl refl (pixel_count-eq w h w_le h_le) in
      let two = append_layer l₂.sensor_id t₂ cs₂ one in
      ap (λ m. m >>= add_layer l₂ >>= fuse out none) ran₁
      ∙ ap (λ m. m >>= fuse out none) ran₂
      ∙ fuse-eq out (beside w h t₁ t₂) two (
          fuse_layers-two w h _ _ out t₁ t₂ two w_pos h_pos w_le h_le small refl refl refl refl refl
            (omega (arith, length-take (w * h) xs, ok₁.enough))
            (omega (arith, length-take (w * h) ys, ok₂.enough)))
