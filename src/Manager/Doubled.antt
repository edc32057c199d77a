-- ===== src/Manager/Doubled.antt =====
-- The frame of a manager that adds a duplicate layer: twice the values that its dimensions say.
use caldera_sandbox.Base.{
  ℕ, zero, suc, ◌+◌, ◌*◌, ◌≤◌, ◌<◌, ◌≡◌, ◌⊎◌, refl, ap, ◌∙◌, Option, none, some, List, [], ◌∷◌,
  ◌++◌, arith, length, length-append, length-take, length-drop, take, drop, ◌>>=◌, >>=-eq-some,
}
use caldera_sandbox.Base.Int.{ℤ, pos, pos_part, int_limit}
use caldera_sandbox.Base.Words.{inc64}
use caldera_sandbox.Base.Float.{Float}
use caldera_sandbox.World.{WorldFrame}
use caldera_sandbox.Sensor.Data.{RawDepthFrame}
use caldera_sandbox.Fusion.Accumulator.{FusionAccumulator, begin_frame, add_layer, fuse}
use caldera_sandbox.Fusion.Rows.{beside}
use caldera_sandbox.Fusion.Output.{IsReadable, int_max}
use caldera_sandbox.Fusion.Frame.{fuse-two}
use caldera_sandbox.Manager.Layers.{shifted, normalized, sized, layer_of, add_duplicate, fuse_frame}
use caldera_sandbox.Manager.Produced.{length-normalized, length-map}
use caldera_sandbox.Manager.Frame.{ProcessingManager, process_raw_depth_frame}
use caldera_sandbox.Manager.Ready.{IsReady}
use caldera_sandbox.Manager.Whole.{process-some}

twice_row : (w n k : ℕ) → w + (w + 2 * (w * n)) ≡ 2 * (w * suc n)
twice_row w n k = grind arith

length-beside :
    {F : Type 0} (w n : ℕ) (xs ys : List F)
    → length xs ≡ w * n
    → length ys ≡ w * n
    → length (beside w n xs ys) ≡ 2 * (w * n)
length-beside w zero xs ys hx hy = grind arith
length-beside w (suc n) xs ys hx hy =
    let row : w * suc n ≡ w + w * n = grind arith in
    let rest =
      length-beside w n (drop w xs) (drop w ys) (omega (arith, length-drop w xs, row))
        (omega (arith, length-drop w ys, row)) in
    omega (
      arith,
      rest,
      row,
      length-take w xs,
      length-take w ys,
      length-append (take w xs) (take w ys ++ beside w n (drop w xs) (drop w ys)),
      length-append (take w ys) (beside w n (drop w xs) (drop w ys)),
    )

module _ {F : Type 0} ⦃f : Float F⦄ where
  length-shifted : (shift : F) (vs : List F) → length (shifted shift vs) ≡ length vs
  unfolding shifted
  length-shifted shift [] = refl
  length-shifted shift (v ∷ vs) = ap suc (length-shifted shift vs)

  fuse_frame-two :
      (counter : ℕ) (ids : ℕ × ℕ) (w h : ℕ) (cs : Option (List F) × Option (List F)) (shift : F)
      (values out : List F) (a : FusionAccumulator F)
      → 0 < w
      → 0 < h
      → w ≤ int_max
      → h ≤ int_max
      → 2 * (w * h) < int_limit
      → IsReadable w h (layer_of ids.0 (pos w) (pos h) cs.0 values) values
      → IsReadable w h
          (layer_of ids.1 (pos w) (pos h) cs.1 (shifted shift values))
          (shifted shift values)
      → (a' : FusionAccumulator F) × (fuse_frame counter ids
            (pos w)
            (pos h)
            cs
            (some shift)
            values
            out
            a
          ≡ some (
            normalized (beside w h (take (w * h) values) (take (w * h) (shifted shift values))),
            a',
          ))
  unfolding fuse_frame add_duplicate
  fuse_frame-two counter ids w h cs shift values out a w_some h_some w_le h_le small ok ok' =
      let one = layer_of ids.0 (pos w) (pos h) cs.0 values in
      let two = layer_of ids.1 (pos w) (pos h) cs.1 (shifted shift values) in
      let begun = begin_frame counter (pos w) (pos h) a in
      let (a₂, added, fused) = >>=-eq-some (add_layer one begun >>= add_layer two) (fuse out none) (
        fuse-two counter w h one two values (shifted shift values) out a w_some h_some w_le h_le
          small ok ok') in
      let (a₁, added₁, added₂) = >>=-eq-some (add_layer one begun) (add_layer two) added in
      (a₂, rw (added₁, added₂, fused) refl)

-- The pointer to a layer's confidences is null, or has a value for each of `n` pixels behind it.
abbrev pub HasEnough : {F : Type 0} → ℕ → Option (List F) → Type 0
HasEnough {F} n c = (c ≡ none) ⊎ ((cs : List F) × (c ≡ some cs) × (n ≤ length cs))

-- A height map of `w` by `h` with two values for each pixel.
pub record IsDoubled (w h : ℕ) (frame : WorldFrame) : Type 0 where
  pub width : frame.height_map.width ≡ pos w
  pub height : frame.height_map.height ≡ pos h
  pub twice : length frame.height_map.data_words ≡ 2 * (w * h)

module _ {F : Type 0} ⦃f : Float F⦄ (sqrt : F → F) (floor : F → ℕ) (round : F → ℤ) {S : Type 0}
    (filter : S → List F → ℤ → ℤ → List F × S) (raw : RawDepthFrame)
    (m : ProcessingManager F S) where
  fuse_frame-doubled :
      (w h : ℕ) (ids : ℕ × ℕ) (cs : Option (List F) × Option (List F)) (shift : F)
      (values out : List F)
      → IsReady sqrt floor round filter raw m w h
      → 0 < w
      → 0 < h
      → 2 * (w * h) < int_limit
      → m.duplicate ≡ some shift
      → HasEnough (w * h) cs.0
      → HasEnough (w * h) cs.1
      → length values ≡ w * h
      → (c : List F × FusionAccumulator F) × (fuse_frame m.frame_counter ids raw.width raw.height cs
            m.duplicate values out m.fusion
          ≡ some c)
        × (length c.0 ≡ 2 * (w * h))
  unfolding layer_of
  fuse_frame-doubled w h ids cs shift values out ready w_some h_some small dup enough₀ enough₁
        size =
      let seconds = shifted shift values in
      let size' : length seconds ≡ w * h = length-shifted shift values ∙ size in
      let (a, e) =
        fuse_frame-two m.frame_counter ids w h cs shift values out m.fusion w_some h_some ready.w_le
          ready.h_le small
          (record {
            width = refl;
            height = refl;
            heights = refl;
            enough = omega (arith, size);
            confidence = enough₀;
          })
          (record {
            width = refl;
            height = refl;
            heights = refl;
            enough = omega (arith, size');
            confidence = enough₁;
          }) in
      let t₁ = take (w * h) values in
      let t₂ = take (w * h) seconds in
      (
        (normalized (beside w h t₁ t₂), a),
        ap (λ x. fuse_frame m.frame_counter ids raw.width raw.height cs x values out m.fusion) dup
            ∙ ap
                (λ z.
                  fuse_frame m.frame_counter ids z raw.height cs (some shift) values out m.fusion)
                ready.width
            ∙ ap (λ z. fuse_frame m.frame_counter ids (pos w) z cs (some shift) values out m.fusion)
                ready.height
            ∙ e,
        length-normalized (beside w h t₁ t₂)
            ∙ length-beside w h t₁ t₂ (omega (arith, length-take (w * h) values, size))
                (omega (arith, length-take (w * h) seconds, size')),
      )

  -- A ready manager with a duplicate layer gives a frame of `w` by `h` with two values for each pixel.
  pub process-IsDoubled :
      {D : Type 0} ⦃d : Float D⦄ (widen : F → D) (narrow : D → F) (bits : F → ℕ) (dup_id : ℕ → ℕ)
      (w h : ℕ) (cs : Option (List F) × Option (List F)) (shift : F)
      → IsReady sqrt floor round filter raw m w h
      → 0 < w
      → 0 < h
      → 2 * (w * h) < int_limit
      → m.duplicate ≡ some shift
      → HasEnough (w * h) cs.0
      → HasEnough (w * h) cs.1
      → (b : WorldFrame × ProcessingManager F S) × (process_raw_depth_frame widen narrow sqrt floor
            round bits dup_id filter cs raw m
          ≡ some b)
        × (IsDoubled w h b.0 × (b.1.frame_counter ≡ inc64 m.frame_counter))
  process-IsDoubled widen narrow bits dup_id w h cs shift ready w_some h_some small dup enough₀
        enough₁ =
      process-some sqrt floor round filter raw m widen narrow bits dup_id w h cs (IsDoubled w h)
        ready
        (λ values size.
          let (c, e, size') =
            fuse_frame-doubled w h (raw.sensor_id, dup_id raw.sensor_id) cs shift values
              (sized (pos_part raw.width * pos_part raw.height) m.fused_heights) ready w_some h_some
              small dup enough₀ enough₁ size in
          (
            c,
            e,
            omega (arith, size'),
            record {
              width = ready.width;
              height = ready.height;
              twice = length-map bits c.0 ∙ size';
            },
          ))
