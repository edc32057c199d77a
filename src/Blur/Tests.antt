-- ===== src/Blur/Tests.antt =====
-- A small map, blurred.
use caldera_sandbox.Base.{ℕ, ◌*◌, ◌≡◌, some, List, [], ◌∷◌, map, arith, length}
use caldera_sandbox.Base.Int.{ℤ, pos}
use caldera_sandbox.Base.Fixed.{Fixed, fixed_float}
use caldera_sandbox.Blur.Gaussian.{Buffers, apply_blur, ideal_width}
use caldera_sandbox.Blur.Whole.{apply_blur-some}

abbrev sixes : List ℕ → List Fixed
sixes ns = map (λ n. some (pos (n * 1_000_000))) ns

abbrev map_1 : Buffers Fixed
map_1 = record { heights = sixes (0 ∷ 0 ∷ 0 ∷ 0 ∷ 9 ∷ 0 ∷ 0 ∷ 0 ∷ 0 ∷ []); temp = [] }

-- Radii of 1, and a mean that is cut off.
abbrev same : Fixed → Fixed
same x = x

abbrev three : Fixed → ℕ
three x = 3

abbrev all_wide : Fixed → ℤ
all_wide x = pos 3

apply_blur-some_example :
    (b' : Buffers Fixed) × (apply_blur same three all_wide
        (some (pos 1_000_000))
        (pos 3)
        (pos 3)
        map_1
      ≡ some b')
    × (length b'.heights ≡ length map_1.heights)
unfolding ideal_width
apply_blur-some_example =
    apply_blur-some same three all_wide (some (pos 1_000_000)) (pos 3) (pos 3) map_1 (omega arith)
      (omega arith)
