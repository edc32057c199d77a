-- ===== src/Fusion/Tests.antt =====
-- Layers of two by two values, and the theorems at them.
use caldera_sandbox.Base.{ℕ, ◌≡◌, refl, none, some, List, [], ◌∷◌, inl, arith, ◌>>=◌}
use caldera_sandbox.Base.Int.{pos}
use caldera_sandbox.Base.Fixed.{Fixed, fixed_float}
use caldera_sandbox.Fusion.Accumulator.{FusionInputLayer, fresh, begin_frame, add_layer, fuse}
use caldera_sandbox.Fusion.Output.{IsReadable}
use caldera_sandbox.Fusion.Frame.{fuse-two}

abbrev values : ℕ → List Fixed
values n = some (pos n) ∷ none ∷ some (pos 3) ∷ some (pos 4) ∷ []

abbrev layer : ℕ → FusionInputLayer Fixed
layer n = record {
  sensor_id = n;
  heights = some (values n);
  confidence = none;
  width = pos 2;
  height = pos 2;
}

layer-IsReadable : (n : ℕ) → IsReadable 2 2 (layer n) (values n)
layer-IsReadable n = record {
  width = refl;
  height = refl;
  heights = refl;
  enough = omega arith;
  confidence = inl refl;
}

fuse-two_example :
    (add_layer (layer 1) (begin_frame 5 (pos 2) (pos 2) fresh)
      >>= add_layer (layer 2)
      >>= fuse [] none)
    ≡ some (
      some (pos 1)
          ∷ none
          ∷ some (pos 2)
          ∷ none
          ∷ some (pos 3)
          ∷ some (pos 4)
          ∷ some (pos 3)
          ∷ some (pos 4)
          ∷ [],
      none,
    )
fuse-two_example =
    fuse-two 5 2 2 (layer 1) (layer 2) (values 1) (values 2) [] fresh (omega arith) (omega arith)
      (omega arith) (omega arith) (omega arith) (layer-IsReadable 1) (layer-IsReadable 2)
