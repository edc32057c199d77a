-- ===== src/Temporal/Window.antt =====
-- The averaging window of a pixel as a function from slots to samples, and its three sums.
use native.Mathlib.Nat.{mul-le-mul}
use caldera_sandbox.Base.{
  ℕ, zero, suc, ◌+◌, ◌-◌, ◌*◌, ◌≤◌, ◌<◌, ◌≡◌, ◌≢◌, refl, ap, ◌==◌, if◌then◌else◌, arith, Bool-cases,
  inl, inr,
}
use caldera_sandbox.Base.Words.{u32_mod, u64_mod, add64, sub64}
use caldera_sandbox.Base.Float.{Float}
use caldera_sandbox.Temporal.Pixel.{
  PixelStatistics, invalid_depth, height_to_buffer, update_statistics, add_sample, drop_sample,
  clear_if_empty,
}

abbrev pub sum_to : ℕ → (ℕ → ℕ) → ℕ
sum_to zero g = 0
sum_to (suc n) g = sum_to n g + g n

-- What a sample counts for; the invalid depth marks a slot that was never filled.
abbrev pub used : ℕ → ℕ
used v = if v == invalid_depth then 0 else 1

abbrev pub value : ℕ → ℕ
value v = if v == invalid_depth then 0 else v

abbrev pub square : ℕ → ℕ
square v = if v == invalid_depth then 0 else v * v

-- The statistics are the sums over the window.
pub record Tracks {F : Type 0} (slots : ℕ) (window : ℕ → ℕ) (st : PixelStatistics F) : Type 0 where
  pub num : st.num_samples ≡ sum_to slots (λ s. used (window s))
  pub total : st.sum_samples ≡ sum_to slots (λ s. value (window s))
  pub squares : st.sum_squares ≡ sum_to slots (λ s. square (window s))

pub sum_to-congr : (n : ℕ) (g h : ℕ → ℕ) → ((s : ℕ) → s < n → g s ≡ h s) → sum_to n g ≡ sum_to n h
sum_to-congr zero g h e = refl
sum_to-congr (suc n) g h e =
    omega (arith, sum_to-congr n g h (λ s p. e s (omega arith)), e n (omega arith))

sum_to-replace :
    (n k : ℕ) (g h : ℕ → ℕ)
    → k < n
    → ((s : ℕ) → s < n → s ≢ k → h s ≡ g s)
    → sum_to n h + g k ≡ sum_to n g + h k
sum_to-replace zero k g h p e = absurd (omega arith)
sum_to-replace (suc n) k g h p e = elim (Bool-cases (k == n)) [
  | inl same ↦
      let k_eq : k ≡ n = ground arith in
      let below = sum_to-congr n h g (λ s q. e s (omega arith) (omega arith)) in
      omega (arith, below, ap g k_eq, ap h k_eq)
  | inr other ↦
      let k_ne : k ≢ n = ground arith in
      omega (
        arith,
        sum_to-replace n k g h (omega arith) (λ s q. e s (omega arith)),
        e n (omega arith) (omega arith),
      )
]

sum_to-le : (n b : ℕ) (g : ℕ → ℕ) → ((s : ℕ) → s < n → g s ≤ b) → sum_to n g ≤ n * b
sum_to-le zero b g h = omega arith
sum_to-le (suc n) b g h =
    omega (arith, sum_to-le n b g (λ s p. h s (omega arith)), h n (omega arith))

le-sum_to : (n k : ℕ) (g : ℕ → ℕ) → k < n → g k ≤ sum_to n g
le-sum_to zero k g h = absurd (omega arith)
le-sum_to (suc n) k g h = elim (Bool-cases (k == n)) [
  | inl e ↦ (let k_eq : k ≡ n = ground arith in omega (arith, ap g k_eq))
  | inr e ↦ omega (arith, le-sum_to n k g (ground arith))
]

sample_bounds : (v : ℕ) → v ≤ invalid_depth → (used v ≤ 1) × (value v ≤ 2047) × (square v ≤ 4190209)
sample_bounds v h = elim (Bool-cases (v == invalid_depth)) [
  | inl e ↦ ground arith
  | inr e ↦ let small : v ≤ 2047 = ground arith in ground (arith, mul-le-mul small small)
]

valid_sample : (v : ℕ) → v < invalid_depth → (used v ≡ 1) × (value v ≡ v) × (square v ≡ v * v)
valid_sample v h = ground arith

bounded :
    (slots k : ℕ) (before after : ℕ → ℕ)
    → ((s : ℕ) → before s ≤ invalid_depth)
    → ((s : ℕ) → s < slots → s ≢ k → after s ≡ before s)
    → after k ≤ invalid_depth
    → (s : ℕ) → s < slots
    → after s ≤ invalid_depth
bounded slots k before after bound others new s p = elim (Bool-cases (s == k)) [
  | inl e ↦ (let e' : s ≡ k = ground arith in omega (arith, ap after e', new))
  | inr e ↦ omega (arith, bound s, others s p (ground arith))
]

-- Unsigned 64-bit words take `new` in and `old` out; nothing is lost when the result fits.
swap64 :
    (n new old : ℕ)
    → old ≤ n
    → old < u64_mod
    → new < u64_mod
    → n + new - old < u64_mod
    → sub64 (add64 n new) old ≡ n + new - old
swap64 n new old h old_fits new_fits fits = omega arith

module _ {F : Type 0} ⦃f : Float F⦄ where
  drop_add-num :
      (new old : ℕ) (st : PixelStatistics F)
      → used old ≤ st.num_samples
      → st.num_samples + 1 - used old < u32_mod
      → (drop_sample old (add_sample new st)).num_samples ≡ st.num_samples + 1 - used old
  unfolding drop_sample add_sample
  drop_add-num new old st h few = elim (Bool-cases (old == invalid_depth)) [
    | inl e ↦ ground arith
    | inr e ↦ ground arith
  ]

  drop_add-sum :
      (new old : ℕ) (st : PixelStatistics F)
      → old ≤ invalid_depth
      → new ≤ invalid_depth
      → value old ≤ st.sum_samples
      → st.sum_samples + new - value old < u64_mod
      → (drop_sample old (add_sample new st)).sum_samples ≡ st.sum_samples + new - value old
  unfolding drop_sample add_sample
  drop_add-sum new old st old_le new_le h few = elim (Bool-cases (old == invalid_depth)) [
    | inl e ↦ ground arith
    | inr e ↦
        let it = swap64 st.sum_samples new old in
        let is_value : value old ≡ old = ground arith in
        ground (
          arith,
          is_value,
          it (omega (arith, is_value)) (omega arith) (omega arith) (omega (arith, is_value)),
        )
  ]

  drop_add-squares :
      (new old : ℕ) (st : PixelStatistics F)
      → old ≤ invalid_depth
      → new ≤ invalid_depth
      → square old ≤ st.sum_squares
      → st.sum_squares + new * new - square old < u64_mod
      → (drop_sample old (add_sample new st)).sum_squares ≡ st.sum_squares + new * new - square old
  unfolding drop_sample add_sample
  drop_add-squares new old st old_le new_le h few = elim (Bool-cases (old == invalid_depth)) [
    | inl e ↦ (let new_sq = mul-le-mul new_le new_le in ground (arith, new_sq))
    | inr e ↦
        let new_sq = mul-le-mul new_le new_le in
        let old_sq = mul-le-mul old_le old_le in
        let it = swap64 st.sum_squares (new * new) (old * old) in
        let is_square : square old ≡ old * old = ground arith in
        ground (
          arith,
          is_square,
          it (omega (arith, is_square)) (omega (arith, old_sq)) (omega (arith, new_sq))
              (omega (arith, is_square)),
        )
  ]

  clear_if_empty-id : (st : PixelStatistics F) → st.num_samples ≢ 0 → clear_if_empty st ≡ st
  unfolding clear_if_empty
  clear_if_empty-id st h = ground arith

  -- When the sample of one slot is replaced by a valid one, the update keeps the statistics equal
  -- to the sums. Nothing wraps, since a window has fewer than 2^32 slots.
  pub update_statistics-Tracks :
      (slots k : ℕ) (before after : ℕ → ℕ) (input : F) (st : PixelStatistics F)
      → slots < u32_mod
      → k < slots
      → ((s : ℕ) → before s ≤ invalid_depth)
      → ((s : ℕ) → s < slots → s ≢ k → after s ≡ before s)
      → after k ≡ height_to_buffer input
      → height_to_buffer input < invalid_depth
      → Tracks slots before st
      → Tracks slots after (update_statistics input (before k) st)
  unfolding update_statistics
  update_statistics-Tracks slots k before after input st few k_lt bound others new valid tracks =
      let old = before k in
      let new_sample = height_to_buffer input in
      let after_bound : (s : ℕ) → s < slots → after s ≤ invalid_depth =
        λ s p. bounded slots k before after bound others (omega (arith, new)) s p in
      let swap = λ (g : ℕ → ℕ).
        sum_to-replace slots k (λ s. g (before s)) (λ s. g (after s)) k_lt
          (λ s p q. ap g (others s p q)) in
      let holds = λ (g : ℕ → ℕ). le-sum_to slots k (λ s. g (before s)) k_lt in
      let below = λ (b : ℕ) (g : ℕ → ℕ) (h : (s : ℕ) → s < slots → g (after s) ≤ b).
        sum_to-le slots b (λ s. g (after s)) h in
      let (used_new, value_new, square_new) = valid_sample new_sample valid in
      let num_le = below 1 used (λ s p. (sample_bounds (after s) (after_bound s p)).0) in
      let total_le = below 2047 value (λ s p. (sample_bounds (after s) (after_bound s p)).1) in
      let squares_le =
        below 4190209 square (λ s p. (sample_bounds (after s) (after_bound s p)).2) in
      let num_sum : st.num_samples + 1 ≡ sum_to slots (λ s. used (after s)) + used old =
        omega (arith, swap used, tracks.num, used_new, ap used new) in
      let total_sum : st.sum_samples + new_sample
          ≡ sum_to slots (λ s. value (after s)) + value old =
        omega (arith, swap value, tracks.total, value_new, ap value new) in
      let squares_sum : st.sum_squares + new_sample * new_sample
          ≡ sum_to slots (λ s. square (after s)) + square old =
        omega (arith, swap square, tracks.squares, square_new, ap square new) in
      let num_eq =
        drop_add-num new_sample old st (omega (arith, holds used, tracks.num))
          (omega (arith, num_sum, num_le)) in
      let total_eq =
        drop_add-sum new_sample old st (bound k) (omega arith)
          (omega (arith, holds value, tracks.total)) (omega (arith, total_sum, total_le)) in
      let squares_eq =
        drop_add-squares new_sample old st (bound k) (omega arith)
          (omega (arith, holds square, tracks.squares)) (omega (arith, squares_sum, squares_le)) in
      let some_sample = le-sum_to slots k (λ s. used (after s)) k_lt in
      let kept =
        clear_if_empty-id (drop_sample old (add_sample new_sample st))
          (omega (arith, num_eq, num_sum, some_sample, used_new, ap used new)) in
      record {
        num = rw kept (omega (arith, num_eq, num_sum));
        total = rw kept (omega (arith, total_eq, total_sum));
        squares = rw kept (omega (arith, squares_eq, squares_sum));
      }
