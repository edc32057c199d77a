-- ===== src/Calibration/Farthest.antt =====
-- The largest distance bounds all distances, with what is known of `<` on floats, NaN included.
use caldera_sandbox.Base.{◌≡◌, true, false, Bool-cases, inl, inr, List, [], ◌∷◌, All}
use caldera_sandbox.Base.Float.{Float}
use caldera_sandbox.Temporal.Cloud.{Point3D}
use caldera_sandbox.Calibration.Plane.{PlaneEquation, larger, distance, farthest}

-- `<` on floats is a strict order.
pub record IsOrder {F : Type 0} (f : Float F) : Type 0 where
  pub lt_irrefl : (a : F) → f.lt a a ≡ false
  pub lt_trans : (a b c : F) → f.lt a b ≡ true → f.lt b c ≡ true → f.lt a c ≡ true

module _ {F : Type 0} ⦃f : Float F⦄ (order : IsOrder f) where
  open f use {lt}

  larger-new : (m x : F) → lt (larger m x) x ≡ false
  unfolding larger
  larger-new m x = elim (Bool-cases (lt m x)) [ inl e ↦ rw e (order.lt_irrefl x) | inr e ↦ rw e e ]

  larger-keeps : (m x d : F) → lt m d ≡ false → lt (larger m x) d ≡ false
  unfolding larger
  larger-keeps m x d h = elim (Bool-cases (lt m x)) [
    | inl e ↦
        rw e
          (elim (Bool-cases (lt x d)) [ inl e' ↦ cc (order.lt_trans m x d e e', h) | inr e' ↦ e' ])
    | inr e ↦ rw e h
  ]

  module _ (sqrt neg : F → F) (plane : PlaneEquation F) where
    farthest-keeps :
        (ps : List (Point3D F)) (m d : F)
        → lt m d ≡ false
        → lt (farthest sqrt neg plane m ps) d ≡ false
    unfolding farthest
    farthest-keeps [] m d h = h
    farthest-keeps (p ∷ ps) m d h =
        let x = distance sqrt neg plane p in farthest-keeps ps (larger m x) d (larger-keeps m x d h)

    pub farthest-All :
        (ps : List (Point3D F)) (m : F)
        → All (λ p. lt (farthest sqrt neg plane m ps) (distance sqrt neg plane p) ≡ false) ps
    unfolding farthest
    farthest-All [] m = tt
    farthest-All (p ∷ ps) m =
        let x = distance sqrt neg plane p in
        (farthest-keeps ps (larger m x) x (larger-new m x), farthest-All ps (larger m x))
