-- ===== src/Transform/Corrector.antt =====
-- `DepthCorrector`. Loading a profile of a sensor is an argument: its answer is the sensor's type as text.
-- A conversion of a value that 16 bits do not hold is a fault, `none`, and so is a read out of bounds.
use caldera_sandbox.Base.{
  ℕ, zero, suc, ◌+◌, ◌*◌, ◌/◌, ◌%◌, ◌^◌, Bool, true, false, not, ◌&&◌, ◌||◌, Option, none, some,
  List, [], ◌∷◌, ltb, ◌==◌, if◌then◌else◌, get_elem?, ◌>>=◌,
}
use caldera_sandbox.Base.Int.{pos_part}
use caldera_sandbox.Base.Float.{Float}
use caldera_sandbox.Base.Text.{codes, same_text}
use caldera_sandbox.Sensor.Data.{RawDepthFrame}

pub record CorrectionProfile (F : Type 0) : Type 0 where
  pub sensor_id : ℕ
  pub pixel_corrections : List F
  pub width : ℕ
  pub height : ℕ
  pub is_valid : Bool

unfoldable pub frame_size : List ℕ → Option (ℕ × ℕ)
unfolding same_text
frame_size sensor_type =
    if same_text sensor_type (codes "kinect-v1")
    then some (640, 480)
    else (if same_text sensor_type (codes "kinect-v2") then some (512, 424) else none)

module _ {F : Type 0} ⦃f : Float F⦄ where
  open f use {of_ℕ, truncate, ratio, add, sub, mul, div, lt}

  abbrev pub no_profile : ℕ → CorrectionProfile F
  no_profile id = record {
    sensor_id = id;
    pixel_corrections = [];
    width = 0;
    height = 0;
    is_valid = false;
  }

  -- A value of the profile as a 16-bit depth.
  unfoldable pub to_u16 : (F → F) → F → Option ℕ
  to_u16 round v = let n = truncate (round v) in if ltb n (2 ^ 16) then some n else none

  module _ (sqrt : F → F) where
    unfoldable pub radial_correction : ℕ → ℕ → ℕ → ℕ → F
    radial_correction w h x y =
        let cx = mul (of_ℕ w) (ratio 1 2) in
        let cy = mul (of_ℕ h) (ratio 1 2) in
        let dx = div (sub (of_ℕ x) cx) cx in
        let dy = div (sub (of_ℕ y) cy) cy in
        add (ratio 1 1) (mul (sqrt (add (mul dx dx) (mul dy dy))) (ratio 2 1000))

    -- The factors of `left` pixels from the `idx`-th on.
    unfoldable pub corrections : ℕ → ℕ → ℕ → ℕ → List F
    unfolding radial_correction
    corrections w h zero idx = []
    corrections w h (suc left) idx =
        radial_correction w h (idx % w) (idx / w) ∷ corrections w h left (idx + 1)

    unfoldable pub create_profile : ℕ → List ℕ → CorrectionProfile F
    unfolding frame_size corrections
    create_profile id sensor_type = elim (frame_size sensor_type) [
      | none ↦ no_profile id
      | some (w, h) ↦ record {
        sensor_id = id;
        pixel_corrections = corrections w h (w * h) 0;
        width = w;
        height = h;
        is_valid = true;
      }
    ]

    -- The corrector's state is its profile, also one that is not valid.
    unfoldable pub load_profile :
        ℕ → Option (List ℕ) → CorrectionProfile F → Bool × CorrectionProfile F
    unfolding create_profile
    load_profile id none p = (false, p)
    load_profile id (some sensor_type) p =
        let made = create_profile id sensor_type in (made.is_valid, made)

  unfoldable pub is_valid_pixel : CorrectionProfile F → ℕ → ℕ → Bool
  is_valid_pixel p x y = ltb x p.width && ltb y p.height

  unfoldable pub correct_pixel : CorrectionProfile F → ℕ → ℕ → F → Option F
  unfolding is_valid_pixel
  correct_pixel p x y depth =
      if is_valid_pixel p x y
      then (get_elem? p.pixel_corrections (y * p.width + x) >>= λ factor. some (mul depth factor))
      else some depth

  module _ (round : F → F) (p : CorrectionProfile F) where
    unfoldable pub correct_sample : ℕ → ℕ → ℕ → Option ℕ
    unfolding correct_pixel to_u16
    correct_sample w idx depth =
        if lt (ratio 0 1) (of_ℕ depth)
        then (correct_pixel p (idx % w) (idx / w) (of_ℕ depth) >>= to_u16 round)
        else some depth

    -- The samples from the `idx`-th on, up to `left` of them; what is beyond the frame stays.
    unfoldable pub correct_samples : ℕ → ℕ → ℕ → List ℕ → Option (List ℕ)
    unfolding correct_sample
    correct_samples w zero idx samples = some samples
    correct_samples w (suc left) idx [] = some []
    correct_samples w (suc left) idx (d ∷ samples) = correct_sample w idx d >>= λ d'.
        correct_samples w left (idx + 1) samples >>= λ rest. some (d' ∷ rest)

    unfoldable pub correct_frame : RawDepthFrame → Option RawDepthFrame
    unfolding correct_samples
    correct_frame frame =
        if not p.is_valid
          || not (pos_part frame.width == p.width && pos_part frame.height == p.height)
        then some frame
        else (correct_samples (pos_part frame.width) (pos_part frame.width * pos_part frame.height)
              0 frame.samples
            >>= λ samples. some (record frame { samples = samples }))
