-- ===== src/Blur/Whole.antt =====
-- The whole blur: its three passes end where they began, in the map.
use caldera_sandbox.Base.{
  ℕ, ◌+◌, ◌-◌, ◌*◌, ◌/◌, ◌≤◌, ◌<◌, ◌≡◌, refl, sym, ◌∙◌, min, Bool, false, not, ◌&&◌, ◌||◌,
  Bool-cases, inl, inr, some, List, [], ◌∷◌, ◌++◌, arith, ltb, leb, ◌==◌, length, length-append,
  length-replicate, replicate, All, if◌then◌else◌,
}
use caldera_sandbox.Base.Int.{ℤ, pos_part, int_limit}
use caldera_sandbox.Base.Float.{Float}
use caldera_sandbox.Blur.Gaussian.{
  to_map, to_temp, Buffers, Pass, box_blur, turned_over, copy_back, ensure_buffer_size, blur_passes,
  clamp_radii, all_zero, ideal_width, box_radius, std_to_box, apply_blur,
}
use caldera_sandbox.Blur.Lines.{horizontal_blur-some, total_blur-some}

length-padded {ℓ} :
    {A : Type ℓ} (n : ℕ) (xs : List A) (a : A)
    → n ≤ length (if ltb (length xs) n then xs ++ replicate (n - length xs) a else xs)
length-padded n xs a =
    let k = n - length xs in
    elim (Bool-cases (ltb (length xs) n)) [
      | inl e ↦ rw e (omega (arith, length-append xs (replicate k a), length-replicate k a))
      | inr e ↦ rw e (ground arith)
    ]

-- No radius reaches past the middle of the map.
abbrev HasRoom : ℕ → ℕ → ℕ → Type 0
HasRoom w h r = (r + r + 1 ≤ w) × (r + r + 1 ≤ h)

clamp-HasRoom :
    (w h r : ℕ)
    → 0 < w
    → 0 < h
    → (let limit = (min w h - 1) / 2 in HasRoom w h (if ltb limit r then limit else r))
clamp-HasRoom w h r w_some h_some = ground arith

clamp_radii-All :
    (w h : ℕ) (boxes : List ℕ)
    → 0 < w
    → 0 < h
    → All (HasRoom w h) (clamp_radii ((min w h - 1) / 2) boxes)
unfolding clamp_radii
clamp_radii-All w h [] w_some h_some = tt
clamp_radii-All w h (r ∷ rs) w_some h_some =
    (clamp-HasRoom w h r w_some h_some, clamp_radii-All w h rs w_some h_some)

-- A map that is blurred has values, and as many as its dimensions say.
some_size :
    (a d g : Bool) (w h n : ℕ)
    → (a || leb w 0 || leb h 0 || d || not (n == w * h) || g) ≡ false
    → (0 < w) × (0 < h) × (n ≡ w * h)
some_size a d g w h n goes_on = (ground arith, ground arith, ground arith)

module _ {F : Type 0} ⦃f : Float F⦄ where
  -- The pointers of a pass when it is called.
  abbrev called : Buffers F → Pass F
  called b = record { source = to_map; target = to_temp; buffers = b }

  -- The pointers of a pass when it returns.
  abbrev returned : Buffers F → Pass F
  returned b = record { source = to_temp; target = to_map; buffers = b }

  -- Both buffers hold a map of `area` values, the first one no more.
  record IsSized (area : ℕ) (b : Buffers F) : Type 0 where
    map_size : length b.heights ≡ area
    temp_size : area ≤ length b.temp

  box_blur-some :
      (w h r : ℕ) (b : Buffers F)
      → IsSized (w * h) b
      → r + r + 1 ≤ w
      → r + r + 1 ≤ h
      → w * h + w ≤ int_limit
      → (b' : Buffers F) × (box_blur w h r (called b) ≡ some (returned b')) × IsSized (w * h) b'
  unfolding box_blur
  box_blur-some w h r b sized wide high small =
      let record { heights = heights; temp = temp } = b in
      let (rows, e₁, size₁) =
        horizontal_blur-some heights temp w h r (omega (arith, sized.map_size)) sized.temp_size wide
          small in
      let (columns, e₂, size₂) =
        total_blur-some rows heights w h r (omega (arith, sized.temp_size))
          (omega (arith, sized.map_size)) high small in
      (
        record { heights = columns; temp = rows },
        rw (e₁, e₂) refl,
        record { map_size = size₂ ∙ sized.map_size; temp_size = omega (arith, sized.temp_size) },
      )

  blur_passes-some :
      (w h r₀ r₁ r₂ : ℕ) (b : Buffers F)
      → IsSized (w * h) b
      → All (HasRoom w h) (r₀ ∷ r₁ ∷ r₂ ∷ [])
      → w * h + w ≤ int_limit
      → (b' : Buffers F) × (blur_passes w h (r₀ ∷ r₁ ∷ r₂ ∷ []) b ≡ some b') × IsSized (w * h) b'
  unfolding blur_passes turned_over copy_back
  blur_passes-some w h r₀ r₁ r₂ b sized (room₀, (room₁, (room₂, _))) small =
      let (b₁, e₁, sized₁) = box_blur-some w h r₀ b sized room₀.0 room₀.1 small in
      let (b₂, e₂, sized₂) = box_blur-some w h r₁ b₁ sized₁ room₁.0 room₁.1 small in
      let (b₃, e₃, sized₃) = box_blur-some w h r₂ b₂ sized₂ room₂.0 room₂.1 small in
      (b₃, rw (e₁, e₂, e₃) refl, sized₃)

  ensure_buffer_size-IsSized :
      (area : ℕ) (b : Buffers F)
      → length b.heights ≡ area
      → IsSized area (record b { temp = ensure_buffer_size area b.temp })
  unfolding ensure_buffer_size
  ensure_buffer_size-IsSized area b size = record {
    map_size = size;
    temp_size = length-padded area b.temp _;
  }

module _ {F : Type 0} ⦃f : Float F⦄ (sqrt : F → F) (floor : F → ℕ) (round : F → ℤ) where
  open f use {le, ratio}

  std_to_box-some :
      (sigma : F)
      → 0 < ideal_width sqrt floor round sigma
      → (a : ℕ) × (b : ℕ) × (c : ℕ) × (std_to_box sqrt floor round sigma ≡ some (a ∷ b ∷ c ∷ []))
  unfolding std_to_box
  std_to_box-some sigma wide =
      let n = ideal_width sqrt floor round sigma in
      let not_none : (n == 0) ≡ false = ground arith in
      let box = box_radius sqrt floor round sigma n in (box 0, box 1, box 2, rw not_none refl)

  blur_clamped-some :
      (w h a b c : ℕ) (bs : Buffers F)
      → IsSized (w * h) bs
      → 0 < w
      → 0 < h
      → w * h + w ≤ int_limit
      → (b' : Buffers F) × (blur_passes w h (clamp_radii ((min w h - 1) / 2) (a ∷ b ∷ c ∷ [])) bs
          ≡ some b')
        × IsSized (w * h) b'
  unfolding clamp_radii
  blur_clamped-some w h a b c bs sized w_some h_some small =
      blur_passes-some w h _ _ _ bs sized (clamp_radii-All w h (a ∷ b ∷ c ∷ []) w_some h_some) small

  -- For a deviation whose ideal filter has a positive width and dimensions for which the index past the last
  -- row, `w * h + w - 1`, is an `int`, whatever the map and the working buffer: the blur reads and writes within its buffers, and keeps the size of the map.
  pub apply_blur-some :
      (sigma : F) (width height : ℤ) (bs : Buffers F)
      → 0 < ideal_width sqrt floor round sigma
      → pos_part width * pos_part height + pos_part width ≤ int_limit
      → (b' : Buffers F) × (apply_blur sqrt floor round sigma width height bs ≡ some b')
        × (length b'.heights ≡ length bs.heights)
  unfolding apply_blur
  apply_blur-some sigma width height bs wide small =
      let w = pos_part width in
      let h = pos_part height in
      let guard =
        leb (length bs.heights) 0
        || leb w 0
        || leb h 0
        || le sigma (ratio 0 1)
        || not (length bs.heights == w * h)
        || ((w == 1) && (h == 1)) in
      elim (Bool-cases guard) [
        | inl e ↦ (bs, rw e refl, refl)
        | inr e ↦
            let (w_some, h_some, size) =
              some_size (leb (length bs.heights) 0) (le sigma (ratio 0 1)) ((w == 1) && (h == 1)) w
                h (length bs.heights) e in
            let (a, b, c, boxes) = std_to_box-some sigma wide in
            let b₁ = record bs { temp = ensure_buffer_size (w * h) bs.temp } in
            let radii = clamp_radii ((min w h - 1) / 2) (a ∷ b ∷ c ∷ []) in
            let (b', done, sized) =
              blur_clamped-some w h a b c b₁ (ensure_buffer_size-IsSized (w * h) bs size) w_some
                h_some small in
            elim (Bool-cases (all_zero radii)) [
              | inl z ↦ (b₁, rw (e, boxes, z) refl, refl)
              | inr z ↦ (b', rw (e, boxes, z) done, sized.map_size ∙ sym size)
            ]
      ]
