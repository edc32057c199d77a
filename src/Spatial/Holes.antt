-- ===== src/Spatial/Holes.antt =====
-- Cells that hold no number are left as they are.
use native.Mathlib.Omega.{div_any}
use caldera_sandbox.Base.{
  ℕ, zero, suc, ◌+◌, ◌*◌, ◌/◌, ◌%◌, ◌<◌, ◌≡◌, refl, ap, sym, ◌∙◌, false, List, arith, length,
  get_or, Bool-cases, inl, inr, not, ◌||◌, ◌==◌, ==_iff, ◌⊎◌, some,
}
use caldera_sandbox.Base.Int.{ℤ, pos, pos_part, ltb_ℤ, int_limit, int_index-some}
use caldera_sandbox.Base.Float.{Float}
use caldera_sandbox.Spatial.Kernel.{SpatialFilter, smooth, cells, horizontal, vertical, apply}

module _ {F : Type 0} ⦃f : Float F⦄ where
  open f use {ratio, is_finite}

  length-cells : (cell : ℕ → F) (p n : ℕ) → length (cells cell p n) ≡ n
  unfolding cells
  length-cells cell p zero = refl
  length-cells cell p (suc n) = ap suc (length-cells cell (p + 1) n)

  get_or-cells :
      (cell : ℕ → F) (p n i : ℕ) (d : F) → i < n → get_or (cells cell p n) i d ≡ cell (p + i)
  unfolding cells
  get_or-cells cell p zero i d h = absurd (omega arith)
  get_or-cells cell p (suc n) zero d h = ap cell (omega arith)
  get_or-cells cell p (suc n) (suc i) d h =
      get_or-cells cell (p + 1) n i d (omega arith) ∙ ap cell {x = p + 1 + i} (omega arith)

  smooth-hole :
      (s : SpatialFilter) (value : ℕ → F) (n x : ℕ)
      → is_finite (value x) ≡ false
      → smooth s value n x ≡ value x
  unfolding smooth
  smooth-hole s value n x hole = rw hole refl

  horizontal-hole :
      (s : SpatialFilter) (w h p : ℕ) (buf : List F)
      → p < w * h
      → is_finite (get_or buf p (ratio 0 1)) ≡ false
      → get_or (horizontal s w h buf) p (ratio 0 1) ≡ get_or buf p (ratio 0 1)
  unfolding horizontal
  horizontal-hole s w h p buf inside hole =
      let here : w * ((0 + p) / w) + (0 + p) % w ≡ p = div_any (0 + p) w ∙ omega arith in
      let same = ap (λ k. get_or buf k (ratio 0 1)) here in
      get_or-cells _ 0 (w * h) p (ratio 0 1) inside
      ∙ smooth-hole s (λ x. get_or buf (w * ((0 + p) / w) + x) (ratio 0 1)) w ((0 + p) % w)
          (ap is_finite same ∙ hole)
      ∙ same

  vertical-hole :
      (s : SpatialFilter) (w h p : ℕ) (buf : List F)
      → p < w * h
      → is_finite (get_or buf p (ratio 0 1)) ≡ false
      → get_or (vertical s w h buf) p (ratio 0 1) ≡ get_or buf p (ratio 0 1)
  unfolding vertical
  vertical-hole s w h p buf inside hole =
      let here : w * ((0 + p) / w) + (0 + p) % w ≡ p = div_any (0 + p) w ∙ omega arith in
      let same = ap (λ k. get_or buf k (ratio 0 1)) here in
      get_or-cells _ 0 (w * h) p (ratio 0 1) inside
      ∙ smooth-hole s (λ y. get_or buf (w * y + (0 + p) % w) (ratio 0 1)) h ((0 + p) / w)
          (ap is_finite same ∙ hole)
      ∙ same

  length-vertical :
      (s : SpatialFilter) (w h : ℕ) (buf : List F) → length (vertical s w h buf) ≡ w * h
  unfolding vertical
  length-vertical s w h buf = length-cells _ 0 (w * h)

  -- The two ways that a call ends.
  apply-cases :
      (s : SpatialFilter) (map : List F) (width height : ℤ)
      → pos_part width * pos_part height < int_limit
      → (apply s map width height ≡ some map)
        ⊎ ((length map ≡ pos_part width * pos_part height)
            × (apply s map width height
                ≡ some (
                    vertical s
                      (pos_part width)
                      (pos_part height)
                      (horizontal s (pos_part width) (pos_part height) map))))
  unfolding apply
  apply-cases s map width height small =
      let w = pos_part width in
      let h = pos_part height in
      let area = int_index-some (w * h) small in
      elim (Bool-cases (not (ltb_ℤ (pos 0) width) || not (ltb_ℤ (pos 0) height))) [
        | inl flat ↦ inl (rw flat refl)
        | inr solid ↦ elim (Bool-cases (length map == w * h)) [
          | inl same ↦ inr ((==_iff (length map) (w * h)).0 same, rw (solid, area, same) refl)
          | inr other ↦ inl (rw (solid, area, other) refl)
        ]
      ]

  pub length-apply :
      (s : SpatialFilter) (map : List F) (width height : ℤ)
      → pos_part width * pos_part height < int_limit
      → (out : List F) × (apply s map width height ≡ some out) × (length out ≡ length map)
  length-apply s map width height small =
      let w = pos_part width in
      let h = pos_part height in
      elim (apply-cases s map width height small) [
        | inl e ↦ (map, e, refl)
        | inr (size, e) ↦ (_, e, length-vertical s w h (horizontal s w h map) ∙ sym size)
      ]

  -- When the product of the sides is an `int`, whatever the kernel: a map keeps its length, and a cell that
  -- holds no finite number keeps its value.
  pub apply-hole :
      (s : SpatialFilter) (map : List F) (width height : ℤ) (p : ℕ)
      → pos_part width * pos_part height < int_limit
      → p < length map
      → is_finite (get_or map p (ratio 0 1)) ≡ false
      → (out : List F) × (apply s map width height ≡ some out)
        × (length out ≡ length map)
        × (get_or out p (ratio 0 1) ≡ get_or map p (ratio 0 1))
  apply-hole s map width height p small inside hole =
      let w = pos_part width in
      let h = pos_part height in
      elim (apply-cases s map width height small) [
        | inl e ↦ (map, e, refl, refl)
        | inr (size, e) ↦
            let within : p < w * h = omega (arith, size) in
            let first = horizontal-hole s w h p map within hole in
            (
              vertical s w h (horizontal s w h map),
              e,
              length-vertical s w h (horizontal s w h map) ∙ sym size,
              vertical-hole s w h p (horizontal s w h map) within (ap is_finite first ∙ hole)
                  ∙ first,
            )
      ]
