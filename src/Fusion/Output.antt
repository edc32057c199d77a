-- ===== src/Fusion/Output.antt =====
-- Frames of one and of two layers, from `beginFrame` to `fuse`.
use native.Mathlib.Nat.{mul-le-mul}
use caldera_sandbox.Base.{
  ℕ, zero, suc, ◌+◌, ◌-◌, ◌*◌, ◌%◌, ◌≤◌, ◌<◌, ◌≡◌, ◌⊎◌, inl, inr, refl, ap, sym, ◌∙◌, Option, none,
  some, List, [], ◌∷◌, ◌++◌, arith, length, take, drop, replicate, length-append, length-take,
  length-replicate, take-append_le, drop-append_le, drop-length_append, true, length-drop,
}
use caldera_sandbox.Base.Int.{int_limit, ℤ, pos, negsuc, ltb_ℤ, to_u64}
use caldera_sandbox.Base.Words.{u64_mod}
use caldera_sandbox.Base.Float.{Float}
use caldera_sandbox.Fusion.Accumulator.{
  LayerEntry, FusionInputLayer, FusionAccumulator, same_ℤ, append_layer, read_confidence, add_layer,
  resize_map, fuse_layers,
}
use caldera_sandbox.Fusion.Rows.{beside, span-inside, fuse_rows-beside}

-- A layer of `w` by `h` with the heights `hs`, whose pointers have that many values behind them.
pub record IsReadable {F : Type 0} (w h : ℕ) (layer : FusionInputLayer F) (hs : List F)
    : Type 0 where
  pub width : layer.width ≡ pos w
  pub height : layer.height ≡ pos h
  pub heights : layer.heights ≡ some hs
  pub enough : w * h ≤ length hs
  pub confidence :
      (layer.confidence ≡ none)
      ⊎ ((cs : List F) × (layer.confidence ≡ some cs) × (w * h ≤ length cs))

abbrev pub int_max : ℕ
int_max = 2_147_483_647

pub pixel_count-eq :
    (w h : ℕ) → w ≤ int_max → h ≤ int_max → to_u64 (pos w) * to_u64 (pos h) % u64_mod ≡ w * h
pixel_count-eq w h w_le h_le =
    let whole : w % u64_mod ≡ w = omega arith in
    let whole' : h % u64_mod ≡ h = omega arith in
    rw (whole, whole') (omega (arith, mul-le-mul w_le h_le))

same_ℤ-eq : (a b : ℤ) → a ≡ b → same_ℤ a b ≡ true
same_ℤ-eq a b e = rw e (same_self b)
  where
    same_self : (c : ℤ) → same_ℤ c c ≡ true
    same_self (pos n) = ground arith
    same_self (negsuc n) = ground arith

module _ {F : Type 0} where
  beside-append :
      (w n : ℕ) (xs zs ys : List F)
      → n * w ≤ length xs
      → beside w n (xs ++ zs) ys ≡ beside w n xs ys
  beside-append w zero xs zs ys h = refl
  beside-append w (suc n) xs zs ys h =
      rw
        (
          take-append_le w xs zs (omega arith),
          drop-append_le w xs zs (omega arith),
          beside-append w n (drop w xs) zs (drop w ys) (omega (arith, length-drop w xs)),
        )
        refl

  read_confidence-some :
      (n : ℕ) (o : Option (List F))
      → (o ≡ none) ⊎ ((cs : List F) × (o ≡ some cs) × (n ≤ length cs))
      → (r : Option (List F)) × (read_confidence n o ≡ some r)
  unfolding read_confidence
  read_confidence-some n o (inl e) = (none, rw e refl)
  read_confidence-some n o (inr (cs, e, h)) =
      (some (take n cs), rw (e, span-inside 0 n cs (omega arith)) refl)

module _ {F : Type 0} ⦃f : Float F⦄ where
  length-resize_map : (n : ℕ) (xs : List F) → length (resize_map n xs) ≡ n
  unfolding resize_map
  length-resize_map n xs = omega (
    arith,
    length-append (take n xs) (replicate (n - length xs) (f.ratio 0 1)),
    length-take n xs,
    length-replicate (n - length xs) (f.ratio 0 1),
  )

  pub add_layer-readable :
      (w h : ℕ) (layer : FusionInputLayer F) (hs : List F) (a : FusionAccumulator F)
      → IsReadable w h layer hs
      → a.width ≡ pos w
      → a.height ≡ pos h
      → a.frame_pixel_count ≡ w * h
      → (cs : Option (List F)) × (add_layer layer a
          ≡ some (append_layer layer.sensor_id (take (w * h) hs) cs a))
  unfolding add_layer
  add_layer-readable w h layer hs a ok a_w a_h count =
      let (cs, ran) = read_confidence-some (w * h) layer.confidence ok.confidence in
      let same_w = same_ℤ-eq layer.width a.width (ok.width ∙ sym a_w) in
      let same_h = same_ℤ-eq layer.height a.height (ok.height ∙ sym a_h) in
      (
        cs,
        rw
            (
              ok.heights,
              same_w,
              same_h,
              count,
              span-inside 0 (w * h) hs (omega (arith, ok.enough)),
              ran,
            )
            refl,
      )

  -- Two layers in the storage, the one behind the other.
  pub fuse_layers-two :
      (w h : ℕ) (l₁ l₂ : LayerEntry) (out t₁ t₂ : List F) (a : FusionAccumulator F)
      → 0 < w
      → 0 < h
      → w ≤ int_max
      → h ≤ int_max
      → 2 * (w * h) < int_limit
      → a.width ≡ pos w
      → a.height ≡ pos h
      → l₁.offset ≡ 0
      → l₂.offset ≡ length t₁
      → a.heights_storage ≡ t₁ ++ t₂
      → length t₁ ≡ w * h
      → length t₂ ≡ w * h
      → fuse_layers (l₁ ∷ l₂ ∷ []) out a ≡ some (beside w h t₁ t₂)
  unfolding fuse_layers
  fuse_layers-two w h l₁ l₂ out t₁ t₂ a w_pos h_pos w_le h_le small a_w a_h o₁ o₂ store len₁ len₂ =
      let count = pixel_count-eq w h w_le h_le in
      let some_w : ltb_ℤ (pos 0) (pos w) ≡ true = ground arith in
      let some_h : ltb_ℤ (pos 0) (pos h) ≡ true = ground arith in
      let size : w * h * 2 % u64_mod ≡ w * h * 2 = omega (arith, mul-le-mul w_le h_le) in
      let blank = resize_map (w * h * 2) out in
      let rows =
        fuse_rows-beside (t₁ ++ t₂) 0 (length t₁) w 0 h [] blank
          (omega (arith, length-append t₁ t₂, len₁, len₂))
          (omega (arith, length-append t₁ t₂, len₁, len₂)) (omega arith)
          (omega (arith, length-resize_map (w * h * 2) out)) (omega arith) in
      let left : drop (0 + 0 * w) (t₁ ++ t₂) ≡ t₁ ++ t₂ =
        ap (λ k. drop k (t₁ ++ t₂)) {y = 0} (omega arith) in
      let right : drop (length t₁ + 0 * w) (t₁ ++ t₂) ≡ t₂ =
        ap (λ k. drop k (t₁ ++ t₂)) {y = length t₁} (omega arith) ∙ drop-length_append t₁ t₂ in
      rw (a_w, a_h, some_w, some_h, count, size, o₁, o₂, store)
        (rows
          ∙ ap some (λ i. beside w h (left i) (right i))
          ∙ ap some (beside-append w h t₁ t₂ t₂ (omega (arith, len₁))))
