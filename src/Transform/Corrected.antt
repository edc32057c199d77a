-- ===== src/Transform/Corrected.antt =====
-- What the correction of a frame does to each sample.
use caldera_sandbox.Base.{
  ℕ, zero, suc, ◌+◌, ◌*◌, ◌/◌, ◌%◌, ◌<◌, ◌≡◌, refl, ap, sym, ◌∙◌, true, Option, some, List, [], ◌∷◌,
  arith, length, lt→ltb, ==_iff, get_elem?, if◌then◌else◌,
}
use mathlib.Core.Path.{subst}
use caldera_sandbox.Base.Int.{pos_part}
use caldera_sandbox.Sensor.Data.{RawDepthFrame}
use caldera_sandbox.Base.Float.{Float}
use caldera_sandbox.Transform.Corrector.{
  CorrectionProfile, to_u16, radial_correction, corrections, is_valid_pixel, correct_pixel,
  correct_sample, correct_samples, frame_size, create_profile, correct_frame,
}

quotient_bound : (w h idx : ℕ) → idx < w * h → (idx % w < w) × (idx / w < h)
quotient_bound w h idx e = grind arith

recompose : (w idx : ℕ) → 0 < w → idx / w * w + idx % w ≡ idx
recompose w idx e = grind arith

module _ {F : Type 0} ⦃f : Float F⦄ (sqrt round : F → F) where
  open f use {of_ℕ, ratio, mul, lt}

  module _ (w h : ℕ) where
    corrections-get :
        (left start i : ℕ)
        → i < left
        → get_elem? (corrections sqrt w h left start) i
          ≡ some (radial_correction sqrt w h ((start + i) % w) ((start + i) / w))
    unfolding corrections
    corrections-get zero start i e = absurd (omega arith)
    corrections-get (suc left) start zero e =
        ap (λ n. some (radial_correction sqrt w h (n % w) (n / w))) {x = start} (omega arith)
    corrections-get (suc left) start (suc i) e =
        corrections-get left (start + 1) i (omega arith)
        ∙ ap (λ n. some (radial_correction sqrt w h (n % w) (n / w))) {x = start + 1 + i}
            (omega arith)

    -- What pixel `idx` becomes: a depth other than 0 is scaled by its radial factor and rounded.
    abbrev pub corrected : ℕ → ℕ → Option ℕ
    corrected idx d =
        if lt (ratio 0 1) (of_ℕ d)
        then to_u16 round (mul (of_ℕ d) (radial_correction sqrt w h (idx % w) (idx / w)))
        else some d

    -- Each sample from the `idx`-th on has a corrected value that 16 bits hold.
    abbrev pub Convertible : ℕ → List ℕ → Type 0
    Convertible idx [] = Unit
    Convertible idx (d ∷ ds) = ((d' : ℕ) × (corrected idx d ≡ some d')) × Convertible (idx + 1) ds

    -- The samples `ds'` are the corrected ones.
    abbrev pub IsImage : ℕ → List ℕ → List ℕ → Type 0
    IsImage idx [] [] = Unit
    IsImage idx [] (d' ∷ ds') = ⊥
    IsImage idx (d ∷ ds) [] = ⊥
    IsImage idx (d ∷ ds) (d' ∷ ds') = (corrected idx d ≡ some d') × IsImage (idx + 1) ds ds'

    -- The profile that is made for a sensor of this size.
    abbrev pub profile : ℕ → CorrectionProfile F
    profile id = record {
      sensor_id = id;
      pixel_corrections = corrections sqrt w h (w * h) 0;
      width = w;
      height = h;
      is_valid = true;
    }

    correct_pixel-profile :
        (id idx : ℕ) (d : F)
        → idx < w * h
        → correct_pixel (profile id) (idx % w) (idx / w) d
          ≡ some (mul d (radial_correction sqrt w h (idx % w) (idx / w)))
    unfolding correct_pixel is_valid_pixel
    correct_pixel-profile id idx d e =
        let (x, y) = quotient_bound w h idx e in
        let at : idx / w * w + idx % w ≡ idx = recompose w idx (omega arith) in
        let got =
          subst
            (λ i.
              get_elem? (corrections sqrt w h (w * h) 0) i
              ≡ some (radial_correction sqrt w h (idx % w) (idx / w)))
            (sym at)
            (corrections-get (w * h) 0 idx e
              ∙ ap (λ n. some (radial_correction sqrt w h (n % w) (n / w))) {x = 0 + idx}
                  (omega arith)) in
        rw (lt→ltb (idx % w) w x, lt→ltb (idx / w) h y, got) refl

    correct_sample-corrected :
        (id idx d : ℕ) → idx < w * h → correct_sample round (profile id) w idx d ≡ corrected idx d
    unfolding correct_sample
    correct_sample-corrected id idx d e = rw (correct_pixel-profile id idx (of_ℕ d) e) refl

    correct_samples-IsImage :
        (id left idx : ℕ) (ds : List ℕ)
        → idx + left ≡ w * h
        → length ds ≡ left
        → Convertible idx ds
        → (ds' : List ℕ) × (correct_samples round (profile id) w left idx ds ≡ some ds')
          × IsImage idx ds ds'
    unfolding correct_samples
    correct_samples-IsImage id zero idx [] e size ok = ([], refl, tt)
    correct_samples-IsImage id zero idx (d ∷ ds) e size ok = absurd (omega arith)
    correct_samples-IsImage id (suc left) idx [] e size ok = absurd (omega arith)
    correct_samples-IsImage id (suc left) idx (d ∷ ds) e size ((d', one), ok) =
        let (ds', rest, image) =
          correct_samples-IsImage id left (idx + 1) ds (omega arith) (omega arith) ok in
        (
          d' ∷ ds',
          rw (correct_samples, correct_sample-corrected id idx d (omega arith), one, rest) refl,
          (one, image),
        )

  correct_frame-profile :
      (w h id : ℕ) (frame : RawDepthFrame) (ds : List ℕ)
      → pos_part frame.width ≡ w
      → pos_part frame.height ≡ h
      → correct_samples round (profile w h id) w (w * h) 0 frame.samples ≡ some ds
      → correct_frame round (profile w h id) frame ≡ some (record frame { samples = ds })
  unfolding correct_frame
  correct_frame-profile w h id frame ds fits_w fits_h got =
      rw (fits_w, fits_h, (==_iff w w).1 refl, (==_iff h h).1 refl, got) refl

  -- For a sensor type of a known size and a frame of that size, each sample of which, if it is not 0 as a
  -- float, is held by 16 bits after its correction: the frame is corrected without a fault by the profile
  -- that is made for the type; each sample that is greater than 0 becomes its product with the radial
  -- factor of its pixel, rounded, the other samples stay, and so does the rest of the frame.
  pub correct_frame-IsImage :
      (id : ℕ) (sensor_type : List ℕ) (w h : ℕ) (frame : RawDepthFrame)
      → frame_size sensor_type ≡ some (w, h)
      → pos_part frame.width ≡ w
      → pos_part frame.height ≡ h
      → length frame.samples ≡ w * h
      → Convertible w h 0 frame.samples
      → (ds : List ℕ) × (correct_frame round (create_profile sqrt id sensor_type) frame
          ≡ some (record frame { samples = ds }))
        × IsImage w h 0 frame.samples ds
  unfolding create_profile correct_frame
  correct_frame-IsImage id sensor_type w h frame known fits_w fits_h size ok =
      let (ds, got, image) =
        correct_samples-IsImage w h id (w * h) 0 frame.samples (omega arith) size ok in
      let made : create_profile sqrt id sensor_type ≡ profile w h id =
        rw (create_profile, known) refl in
      (
        ds,
        subst (λ p. correct_frame round p frame ≡ some (record frame { samples = ds })) (sym made)
            (correct_frame-profile w h id frame ds fits_w fits_h got),
        image,
      )
