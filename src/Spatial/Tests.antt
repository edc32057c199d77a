-- ===== src/Spatial/Tests.antt =====
-- A map of three by two values with a hole.
use caldera_sandbox.Base.{ℕ, ◌≡◌, refl, true, none, some, List, [], ◌∷◌, arith, length, get_or, ◌*◌}
use caldera_sandbox.Base.Int.{pos, int_index}
use caldera_sandbox.Base.Fixed.{Fixed, fixed_float}
use caldera_sandbox.Spatial.Kernel.{SpatialFilter, classic3, apply}
use caldera_sandbox.Spatial.Holes.{apply-hole}

abbrev metres : ℕ → Fixed
metres n = some (pos (n * 1_000_000))

abbrev holed : List Fixed
holed = metres 1 ∷ none ∷ metres 3 ∷ metres 4 ∷ metres 4 ∷ metres 4 ∷ []

abbrev classic : SpatialFilter
classic = record { mode = classic3; nan_aware = true }

smoothed :
    apply classic holed (pos 3) (pos 2)
    ≡ some
        (metres 2 ∷ none ∷ some (pos 3_333_333) ∷ metres 3 ∷ metres 4 ∷ some (pos 3_666_666) ∷ [])
unfolding apply int_index
smoothed = refl

apply-hole_example :
    (out : List Fixed) × (apply classic holed (pos 3) (pos 2) ≡ some out)
    × (length out ≡ 6)
    × (get_or out 1 (some (pos 0)) ≡ none)
apply-hole_example = apply-hole classic holed (pos 3) (pos 2) 1 (omega arith) (omega arith) refl
