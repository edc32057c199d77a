-- ===== src/Manager/Produced.antt =====
-- The frame that is produced: its identity, its size, and no hole in it.
use caldera_sandbox.Base.{
  ℕ, zero, suc, ◌+◌, ◌*◌, ◌≤◌, ◌<◌, ◌≡◌, refl, ap, Bool, true, false, Option, none, some, List, [],
  ◌∷◌, All, map, arith, length, take, get_elem?-some, if◌then◌else◌, >>=-eq-some,
}
use caldera_sandbox.Base.Int.{pos}
use caldera_sandbox.Base.Float.{Float}
use caldera_sandbox.Fusion.Accumulator.{FusionAccumulator, begin_frame, add_layer, fuse}
use caldera_sandbox.Fusion.Output.{IsReadable, int_max}
use caldera_sandbox.Fusion.Frame.{fuse-one}
use caldera_sandbox.Manager.Gate.{AdaptiveConfig}
use caldera_sandbox.Manager.Metrics.{Measures, row_pairs, neighbours, update_metrics, measure}
use caldera_sandbox.Manager.Layers.{
  blend, blend_previous, normalized, layer_of, add_duplicate, fuse_frame,
}

pub length-map {ℓ κ} :
    {A : Type ℓ} {B : Type κ} (g : A → B) (xs : List A) → length (map g xs) ≡ length xs
length-map g [] = refl
length-map g (x ∷ xs) = ap suc (length-map g xs)

zero_plus : (n : ℕ) → 0 + n ≡ n
zero_plus n = omega arith

row_inside : (w y left n : ℕ) → suc w * (y + suc left) ≤ n → y * suc w + w < n
row_inside w y left n inside = grind arith

next_rows : (w y left n : ℕ) → w * (y + suc left) ≤ n → w * (y + 1 + left) ≤ n
next_rows w y left n inside = grind arith

module _ {F : Type 0} ⦃f : Float F⦄ where
  open f use {ratio, is_finite, lt}

  length-blend : (alpha : F) (ps cs : List F) → length (blend alpha ps cs) ≡ length cs
  unfolding blend
  length-blend alpha [] cs = refl
  length-blend alpha (p ∷ ps) [] = refl
  length-blend alpha (p ∷ ps) (c ∷ cs) = ap suc (length-blend alpha ps cs)

  length-if :
      (b : Bool) (xs ys : List F)
      → length xs ≡ length ys
      → length (if b then xs else ys) ≡ length ys
  length-if true xs ys same = same
  length-if false xs ys same = refl

  pub length-blend_previous :
      (c : AdaptiveConfig F) (active : Bool) (m : Measures F) (previous : Option (List F))
      (current : List F)
      → length (blend_previous c active m previous current) ≡ length current
  unfolding blend_previous
  length-blend_previous c active m none current = refl
  length-blend_previous c active m (some previous) current =
      length-if _ _ current (length-blend _ previous current)

  pub length-normalized : (vs : List F) → length (normalized vs) ≡ length vs
  unfolding normalized
  length-normalized [] = refl
  length-normalized (v ∷ vs) = ap suc (length-normalized vs)

  finite-or_zero :
      (v : F) (b : Bool)
      → is_finite v ≡ b
      → is_finite (ratio 0 1) ≡ true
      → is_finite (if b then v else ratio 0 1) ≡ true
  finite-or_zero v true e zero_finite = e
  finite-or_zero v false e zero_finite = zero_finite

  pub normalized-All :
      (vs : List F) → is_finite (ratio 0 1) ≡ true → All (λ v. is_finite v ≡ true) (normalized vs)
  unfolding normalized
  normalized-All [] zero_finite = tt
  normalized-All (v ∷ vs) zero_finite =
      (finite-or_zero v (is_finite v) refl zero_finite, normalized-All vs zero_finite)

  row_pairs-some :
      (values : List F) (at left : ℕ)
      → at + left < length values
      → (ps : List (F × F)) × (row_pairs values at left ≡ some ps)
  unfolding row_pairs
  row_pairs-some values at zero inside = ([], refl)
  row_pairs-some values at (suc left) inside =
      let (a, ea) = get_elem?-some values at (omega arith) in
      let (b, eb) = get_elem?-some values (at + 1) (omega arith) in
      let (ps, e) = row_pairs-some values (at + 1) left (omega arith) in
      ((a, b) ∷ ps, rw (ea, eb, e) refl)

  pub neighbours-some :
      (values : List F) (w y left : ℕ)
      → w * (y + left) ≤ length values
      → (rows : List (List (F × F))) × (neighbours values w y left ≡ some rows)
  unfolding neighbours
  neighbours-some values w y zero inside = ([], refl)
  neighbours-some values zero y (suc left) inside = ([], refl)
  neighbours-some values (suc w) y (suc left) inside =
      let (row, e₁) =
        row_pairs-some values (y * suc w) w (row_inside w y left (length values) inside) in
      let (rows, e) =
        neighbours-some values (suc w) (y + 1) left
          (next_rows (suc w) y left (length values) inside) in
      (row ∷ rows, rw (e₁, e) refl)

  pub fuse_frame-some :
      (counter : ℕ) (ids : ℕ × ℕ) (w h : ℕ) (cs : Option (List F) × Option (List F))
      (values out : List F) (a : FusionAccumulator F)
      → w ≤ int_max
      → h ≤ int_max
      → IsReadable w h (layer_of ids.0 (pos w) (pos h) cs.0 values) values
      → (a' : FusionAccumulator F) × (fuse_frame counter ids (pos w) (pos h) cs none values out a
          ≡ some (normalized (take (w * h) values), a'))
  unfolding fuse_frame add_duplicate
  fuse_frame-some counter ids w h cs values out a w_le h_le ok =
      let (a', added, fused) =
        >>=-eq-some
          (add_layer (layer_of ids.0 (pos w) (pos h) cs.0 values)
            (begin_frame counter (pos w) (pos h) a))
          (fuse out none) (fuse-one counter w h _ values out a w_le h_le ok) in
      (a', rw (added, fused) refl)

module _ {F : Type 0} ⦃f : Float F⦄ {D : Type 0} ⦃d : Float D⦄ (widen : F → D)
    (narrow : D → F) where
  pub metrics-some :
      (enabled : Bool) (fused : List F) (w h : ℕ) (m : Measures F)
      → w * h ≤ length fused
      → (m' : Measures F) × ((if enabled then update_metrics widen narrow fused w h m else some m)
          ≡ some m')
  unfolding update_metrics
  metrics-some false fused w h m size = (m, refl)
  metrics-some true fused w h m size =
      let rows_fit : w * (0 + h) ≤ length fused = omega (arith, ap (◌*◌ w) (zero_plus h)) in
      let (rows, e) = neighbours-some fused w 0 h rows_fit in
      (measure widen narrow rows m, rw e refl)
