-- ===== src/Spatial/Kernel.antt =====
-- The two passes. A pass writes to a buffer that it does not read, so its values are given cell by cell.
-- A product of the sides that no `int` holds is a fault.
use caldera_sandbox.Base.{
  ℕ, zero, suc, ◌+◌, ◌-◌, ◌*◌, ◌/◌, ◌%◌, Bool, ◌&&◌, ◌||◌, not, Option, some, ◌>>=◌, List, [], ◌∷◌,
  ltb, leb, ◌==◌, if◌then◌else◌, length, get_or,
}
use caldera_sandbox.Base.Int.{ℤ, pos, pos_part, ltb_ℤ, int_index}
use caldera_sandbox.Base.Float.{Float}

pub data Mode : Type 0 where
  classic3 wide5 : Mode

pub record SpatialFilter : Type 0 where
  pub mode : Mode
  pub nan_aware : Bool

abbrev pub radius : Mode → ℕ
radius classic3 = 1
radius wide5 = 2

module _ {F : Type 0} ⦃f : Float F⦄ where
  open f use {ratio, add, mul, div, lt, is_finite}

  -- The weights from `-radius` to `radius`.
  unfoldable pub weights : Mode → List F
  weights classic3 = ratio 1 1 ∷ ratio 2 1 ∷ ratio 1 1 ∷ []
  weights wide5 = ratio 1 1 ∷ ratio 4 1 ∷ ratio 6 1 ∷ ratio 4 1 ∷ ratio 1 1 ∷ []

  -- The loop over the neighbours of `x` in a line of `n` values, with the weights from the `j`-th on:
  -- the weighted sum and the sum of the weights used.
  unfoldable pub gather : Bool → ℕ → (ℕ → F) → ℕ → ℕ → ℕ → List F → F → F → F × F
  gather aware r value n x j [] acc wsum = (acc, wsum)
  gather aware r value n x j (weight ∷ ws) acc wsum =
      let v = value (x + j - r) in
      let skip = ltb (x + j) r || leb n (x + j - r) || (aware && not (is_finite v)) in
      gather aware r value n x (j + 1) ws (if skip then acc else add acc (mul v weight))
        (if skip then wsum else add wsum weight)

  unfoldable pub smooth : SpatialFilter → (ℕ → F) → ℕ → ℕ → F
  unfolding gather weights
  smooth s value n x =
      let c = value x in
      let (acc, wsum) =
        gather s.nan_aware (radius s.mode) value n x 0 (weights s.mode) (ratio 0 1) (ratio 0 1) in
      if is_finite c then (if lt (ratio 0 1) wsum then div acc wsum else c) else c

  -- The cells from `p` on, of which `left` are to come.
  unfoldable pub cells : (ℕ → F) → ℕ → ℕ → List F
  cells cell p zero = []
  cells cell p (suc left) = cell p ∷ cells cell (p + 1) left

  unfoldable pub horizontal : SpatialFilter → ℕ → ℕ → List F → List F
  unfolding cells smooth
  horizontal s w h buf =
      cells (λ p. smooth s (λ x. get_or buf (w * (p / w) + x) (ratio 0 1)) w (p % w)) 0 (w * h)

  unfoldable pub vertical : SpatialFilter → ℕ → ℕ → List F → List F
  unfolding cells smooth
  vertical s w h buf =
      cells (λ p. smooth s (λ y. get_or buf (w * y + p % w) (ratio 0 1)) h (p / w)) 0 (w * h)

  unfoldable pub apply : SpatialFilter → List F → ℤ → ℤ → Option (List F)
  unfolding horizontal vertical
  apply s map width height =
      let w = pos_part width in
      let h = pos_part height in
      if not (ltb_ℤ (pos 0) width) || not (ltb_ℤ (pos 0) height)
      then some map
      else (int_index (w * h) >>= λ n.
          some (if length map == n then vertical s w h (horizontal s w h map) else map))
