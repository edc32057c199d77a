-- ===== src/Temporal/Consistent.antt =====
-- The filter keeps, of every pixel, the sums over that pixel's window in the averaging buffer.
use native.Mathlib.Nat.{mul-le-mul, le_refl}
use caldera_sandbox.Base.{
  ℕ, suc, ◌+◌, ◌*◌, ◌≤◌, ◌<◌, ◌≡◌, ◌≢◌, ap, sym, ◌∙◌, true, false, List, ◌==◌, arith, Bool-cases,
  inl, inr, length, get_or, set, length-set, get_or-set_self, get_or-set_ne, ltb, ltb→lt,
}
use caldera_sandbox.Base.Words.{u32_mod}
use caldera_sandbox.Base.Float.{Float}
use caldera_sandbox.Temporal.Pixel.{
  PixelStatistics, invalid_depth, no_statistics, height_to_buffer, update_statistics,
}
use caldera_sandbox.Temporal.Filter.{TemporalFilter, record_sample}
use caldera_sandbox.Temporal.Window.{
  Tracks, used, value, square, update_statistics-Tracks, sum_to-congr,
}

-- A finite number times 1000 is not NaN; when it is not `n` or more, it is truncated to less.
pub record IsNumber {F : Type 0} (f : Float F) : Type 0 where
  pub truncate_lt :
      (x : F) (n : ℕ)
      → f.is_finite x ≡ true
      → f.lt (f.mul x (f.ratio 1000 1)) (f.ratio 0 1) ≡ false
      → f.le (f.of_ℕ n) (f.mul x (f.ratio 1000 1)) ≡ false
      → f.truncate (f.mul x (f.ratio 1000 1)) < n

-- The samples of pixel `p`, by slot, in a buffer of frames of `n` pixels.
abbrev pub window : ℕ → ℕ → List ℕ → ℕ → ℕ
window n p buffer s = get_or buffer (p + s * n) 0

-- Over `n` pixels.
pub record IsConsistent {F : Type 0} ⦃f : Float F⦄ (n : ℕ) (t : TemporalFilter F) : Type 0 where
  pub buffer_length : length t.averaging_buffer ≡ n * t.config.num_averaging_slots
  pub stats_length : length t.pixel_stats ≡ n
  pub valid_length : length t.valid_buffer ≡ n
  pub slot_inside : t.averaging_slot_index < t.config.num_averaging_slots
  pub few_slots : t.config.num_averaging_slots < u32_mod
  pub samples : (j : ℕ) → get_or t.averaging_buffer j 0 ≤ invalid_depth
  pub tracks :
      (p : ℕ)
      → p < n
      → Tracks t.config.num_averaging_slots
          (window n p t.averaging_buffer)
          (get_or t.pixel_stats p no_statistics)

pub slot-lt : (n p k slots : ℕ) → p < n → k < slots → p + k * n < n * slots
slot-lt n p k slots p_lt k_lt =
    let row : suc k * n ≤ slots * n = mul-le-mul k_lt (le_refl n) in omega (arith, row)

slot-ne : (n p i s k : ℕ) → p < n → i < n → s < k → p + s * n ≢ i + k * n
slot-ne n p i s k p_lt i_lt lt e =
    let row : suc s * n ≤ k * n = mul-le-mul lt (le_refl n) in omega (arith, row, e)

slot-same : (n p i s k : ℕ) → p < n → i < n → p + s * n ≡ i + k * n → (s ≡ k) × (p ≡ i)
slot-same n p i s k p_lt i_lt e = elim (Bool-cases (ltb s k)) [
  | inl lt ↦ absurd (slot-ne n p i s k p_lt i_lt (ltb→lt s k lt) e)
  | inr ge ↦ elim (Bool-cases (ltb k s)) [
    | inl lt ↦ absurd (slot-ne n i p k s i_lt p_lt (ltb→lt k s lt) (sym e))
    | inr le ↦ let same : s ≡ k = ground arith in (same, omega (arith, e, ap (λ m. m * n) same))
  ]
]

set-le :
    (xs : List ℕ) (i v b : ℕ)
    → i < length xs
    → v ≤ b
    → ((j : ℕ) → get_or xs j 0 ≤ b)
    → (j : ℕ) → get_or (set xs i v) j 0 ≤ b
set-le xs i v b inside small le j = elim (Bool-cases (i == j)) [
  | inl e ↦
      let same : i ≡ j = ground arith in
      omega (arith, ap (λ m. get_or (set xs i v) m 0) same, get_or-set_self xs i v 0 inside)
  | inr e ↦ let other : i ≢ j = ground arith in omega (arith, get_or-set_ne xs i j v 0 other, le j)
]

Tracks-congr :
    {F : Type 0} (slots : ℕ) (g h : ℕ → ℕ) (st : PixelStatistics F)
    → ((s : ℕ) → s < slots → g s ≡ h s)
    → Tracks slots g st
    → Tracks slots h st
Tracks-congr slots g h st same ok =
    let both =
      λ (k : ℕ → ℕ). sum_to-congr slots (λ s. k (g s)) (λ s. k (h s)) (λ s p. ap k (same s p)) in
    record {
      num = ok.num ∙ both used;
      total = ok.total ∙ both value;
      squares = ok.squares ∙ both square;
    }

-- The pixel whose sample is recorded.
record_sample-Tracks_self :
    {F : Type 0} ⦃f : Float F⦄ (n i : ℕ) (input : F) (t : TemporalFilter F)
    → height_to_buffer input < invalid_depth
    → i < n
    → IsConsistent n t
    → Tracks t.config.num_averaging_slots
        (window n i (record_sample n i input t).averaging_buffer)
        (get_or (record_sample n i input t).pixel_stats i no_statistics)
unfolding record_sample
record_sample-Tracks_self n i input t new_lt i_lt ok =
    let k = t.averaging_slot_index in
    let at_lt = slot-lt n i k _ i_lt ok.slot_inside in
    let buffer = t.averaging_buffer in
    let after = set buffer (i + k * n) (height_to_buffer input) in
    let others = λ (s : ℕ) (p : s < t.config.num_averaging_slots) (ne : s ≢ k).
      get_or-set_ne buffer (i + k * n) (i + s * n) (height_to_buffer input) 0
        (λ e. ne (sym (slot-same n i i k s i_lt i_lt e).0)) in
    let new =
      get_or-set_self buffer (i + k * n) (height_to_buffer input) 0
        (omega (arith, at_lt, ok.buffer_length)) in
    rw
      (get_or-set_self t.pixel_stats i
        (update_statistics input (get_or buffer (i + k * n) 0)
          (get_or t.pixel_stats i no_statistics))
        no_statistics (omega (arith, ok.stats_length, i_lt)))
      (update_statistics-Tracks t.config.num_averaging_slots k (window n i buffer)
        (window n i after) input (get_or t.pixel_stats i no_statistics) ok.few_slots ok.slot_inside
        (λ s. ok.samples (i + s * n)) others new new_lt (ok.tracks i i_lt))

-- The others.
record_sample-Tracks_ne :
    {F : Type 0} ⦃f : Float F⦄ (n i p : ℕ) (input : F) (t : TemporalFilter F)
    → i < n
    → p < n
    → i ≢ p
    → IsConsistent n t
    → Tracks t.config.num_averaging_slots
        (window n p (record_sample n i input t).averaging_buffer)
        (get_or (record_sample n i input t).pixel_stats p no_statistics)
unfolding record_sample
record_sample-Tracks_ne n i p input t i_lt p_lt ne ok =
    let at = i + t.averaging_slot_index * n in
    rw
      (get_or-set_ne t.pixel_stats i p
        (update_statistics input (get_or t.averaging_buffer at 0)
          (get_or t.pixel_stats i no_statistics))
        no_statistics ne)
      (Tracks-congr t.config.num_averaging_slots (window n p t.averaging_buffer)
        (window n p (set t.averaging_buffer at (height_to_buffer input)))
        (get_or t.pixel_stats p no_statistics)
        (λ s s_lt. sym (
          get_or-set_ne t.averaging_buffer at (p + s * n) (height_to_buffer input) 0
            (λ e. ne (slot-same n i p t.averaging_slot_index s i_lt p_lt e).1)))
        (ok.tracks p p_lt))

pub record_sample-IsConsistent :
    {F : Type 0} ⦃f : Float F⦄ (n i : ℕ) (input : F) (t : TemporalFilter F)
    → height_to_buffer input < invalid_depth
    → i < n
    → IsConsistent n t
    → IsConsistent n (record_sample n i input t)
unfolding record_sample
record_sample-IsConsistent n i input t new_lt i_lt ok =
    let at_lt = slot-lt n i t.averaging_slot_index _ i_lt ok.slot_inside in
    let at = i + t.averaging_slot_index * n in
    record {
      buffer_length = rw (length-set t.averaging_buffer) ok.buffer_length;
      stats_length = rw (length-set t.pixel_stats) ok.stats_length;
      valid_length = ok.valid_length;
      slot_inside = ok.slot_inside;
      few_slots = ok.few_slots;
      samples =
          set-le t.averaging_buffer at (height_to_buffer input) invalid_depth
            (omega (arith, at_lt, ok.buffer_length)) (omega arith) ok.samples;
      tracks = λ p p_lt. elim (Bool-cases (i == p)) [
        | inl e ↦
            let same : i ≡ p = ground arith in
            rw (sym same) (record_sample-Tracks_self n i input t new_lt i_lt ok)
        | inr e ↦ record_sample-Tracks_ne n i p input t i_lt p_lt (ground arith) ok
      ];
    }
