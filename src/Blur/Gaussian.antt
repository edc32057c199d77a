-- ===== src/Blur/Gaussian.antt =====
-- `FastGaussianBlur::apply`: three box passes between the map and a working buffer.
use caldera_sandbox.Base.{
  ℕ, ◌+◌, ◌-◌, ◌*◌, ◌/◌, ◌%◌, min, Bool, true, not, ◌&&◌, ◌||◌, Option, none, some, List, [], ◌∷◌,
  ltb, leb, ◌==◌, if◌then◌else◌, length, take, drop, ◌++◌, replicate, ◌>>=◌,
}
use caldera_sandbox.Base.Int.{ℤ, pos, pos_part, ltb_ℤ}
use caldera_sandbox.Base.Float.{Float}
use caldera_sandbox.Blur.Passes.{horizontal_blur, total_blur}

-- A pointer to the map or to the working buffer.
pub data Pointer : Type 0 where
  to_map to_temp : Pointer

pub record Buffers (F : Type 0) : Type 0 where
  pub heights : List F
  pub temp : List F

module _ {F : Type 0} where
  abbrev pub load : Pointer → Buffers F → List F
  load to_map b = b.heights
  load to_temp b = b.temp

  abbrev pub save : Pointer → List F → Buffers F → Buffers F
  save to_map s b = record b { heights = s }
  save to_temp s b = record b { temp = s }

-- The buffers with what the two pointers of the caller point to.
pub record Pass (F : Type 0) : Type 0 where
  pub source : Pointer
  pub target : Pointer
  pub buffers : Buffers F

module _ {F : Type 0} ⦃f : Float F⦄ where
  open f use {ratio}

  -- `box_blur` swaps the caller's pointers, then blurs from the new target to the new source and back.
  unfoldable pub box_blur : ℕ → ℕ → ℕ → Pass F → Option (Pass F)
  unfolding horizontal_blur total_blur
  box_blur w h r p =
      let source = p.target in
      let target = p.source in
      horizontal_blur (load target p.buffers) (load source p.buffers) w h r >>= λ rows.
      (let b₁ = save source rows p.buffers in
        total_blur (load source b₁) (load target b₁) w h r >>= λ columns.
        some (record { source = source; target = target; buffers = save target columns b₁ }))

  -- The pointers of the second pass are given in the other order.
  unfoldable pub turned_over : Pass F → Pass F
  turned_over p = record p { source = p.target; target = p.source }

  -- The end of `apply`: the values are copied to the map, when they are not there.
  unfoldable pub copy_back : ℕ → Pointer → Buffers F → Buffers F
  copy_back n to_map b = b
  copy_back n to_temp b = record b { heights = take n b.temp ++ drop n b.heights }

  unfoldable pub ensure_buffer_size : ℕ → List F → List F
  ensure_buffer_size n temp =
      if ltb (length temp) n then temp ++ replicate (n - length temp) (ratio 0 1) else temp

  -- The three passes with their radii.
  unfoldable pub blur_passes : ℕ → ℕ → List ℕ → Buffers F → Option (Buffers F)
  unfolding box_blur turned_over copy_back
  blur_passes w h (r₀ ∷ r₁ ∷ r₂ ∷ _) b =
      box_blur w h r₀ (record { source = to_map; target = to_temp; buffers = b }) >>= λ p₀.
      (box_blur w h r₁ (turned_over p₀) >>= λ p₁.
      (box_blur w h r₂ (turned_over p₁) >>= λ p₂. some (copy_back (w * h) p₂.target p₂.buffers)))
  blur_passes w h _ b = none

unfoldable pub clamp_radii : ℕ → List ℕ → List ℕ
clamp_radii limit [] = []
clamp_radii limit (r ∷ rs) = (if ltb limit r then limit else r) ∷ clamp_radii limit rs

unfoldable pub all_zero : List ℕ → Bool
all_zero [] = true
all_zero (r ∷ rs) = (r == 0) && all_zero rs

-- `std::floor` of what is not negative and `std::round`, both cast to `int`, and `std::sqrt`.
module _ {F : Type 0} ⦃f : Float F⦄ (sqrt : F → F) (floor : F → ℕ) (round : F → ℤ) where
  open f use {of_ℕ, ratio, add, sub, mul, div, le}

  -- The ideal width of a filter, as a whole number.
  unfoldable pub ideal_width : F → ℕ
  ideal_width sigma =
      floor (sqrt (add (div (mul (mul (ratio 12 1) sigma) sigma) (ratio 3 1)) (ratio 1 1)))

  -- The radius of pass `i`, from the ideal width.
  unfoldable pub box_radius : F → ℕ → ℕ → ℕ
  box_radius sigma wide i =
      let wl = if wide % 2 == 0 then wide - 1 else wide in
      let mi =
        div
          (sub
            (sub (sub (mul (mul (ratio 12 1) sigma) sigma) (of_ℕ (3 * wl * wl))) (of_ℕ (12 * wl)))
            (of_ℕ 9))
          (sub (ratio 0 1) (of_ℕ (4 * wl + 4))) in
      ((if ltb_ℤ (pos i) (round mi) then wl else wl + 2) - 1) / 2

  -- The three radii. A width below 1 is `none`.
  unfoldable pub std_to_box : F → Option (List ℕ)
  unfolding ideal_width box_radius
  std_to_box sigma =
      let wide = ideal_width sigma in
      if wide == 0
      then none
      else some (box_radius sigma wide 0 ∷ box_radius sigma wide 1 ∷ box_radius sigma wide 2 ∷ [])

  unfoldable pub apply_blur : F → ℤ → ℤ → Buffers F → Option (Buffers F)
  unfolding std_to_box blur_passes clamp_radii all_zero ensure_buffer_size
  apply_blur sigma width height b =
      let w = pos_part width in
      let h = pos_part height in
      if leb (length b.heights) 0
        || leb w 0
        || leb h 0
        || le sigma (ratio 0 1)
        || not (length b.heights == w * h)
        || ((w == 1) && (h == 1))
      then some b
      else (let b₁ = record b { temp = ensure_buffer_size (w * h) b.temp } in
          std_to_box sigma >>= λ boxes.
          (let radii = clamp_radii ((min w h - 1) / 2) boxes in
            if all_zero radii then some b₁ else blur_passes w h radii b₁))
