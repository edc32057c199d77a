-- ===== src/Temporal/Fresh.antt =====
-- The filter after `initialize` and after `reset`.
use caldera_sandbox.Base.{
  ℕ, zero, suc, ◌+◌, ◌*◌, ◌≤◌, ◌<◌, ◌≡◌, refl, ap, sym, ◌∙◌, List, [], arith, length, get_or, take,
  replicate, length-replicate, length-take, get_or-replicate, get_or-append, get_or-take,
}
use caldera_sandbox.Base.Words.{u32_mod}
use caldera_sandbox.Base.Float.{Float}
use caldera_sandbox.Temporal.Pixel.{FilterConfig, invalid_depth, no_statistics}
use caldera_sandbox.Temporal.Filter.{TemporalFilter, pixels, resize, create, initialize, reset}
use caldera_sandbox.Temporal.Window.{Tracks, sum_to, used, value, square, sum_to-congr}
use caldera_sandbox.Temporal.Consistent.{IsConsistent, window, slot-lt}

sum_to-zero : (n : ℕ) → sum_to n (λ s. 0) ≡ 0
sum_to-zero zero = refl
sum_to-zero (suc n) = omega (arith, sum_to-zero n)

empty-Tracks :
    {F : Type 0} ⦃f : Float F⦄ (slots : ℕ) (g : ℕ → ℕ)
    → ((s : ℕ) → s < slots → g s ≡ invalid_depth)
    → Tracks slots g (no_statistics {F = F})
empty-Tracks slots g empty =
    let none_of = λ (k : ℕ → ℕ) (e : k invalid_depth ≡ 0).
      sum_to-congr slots (λ s. k (g s)) (λ s. 0) (λ s p. ap k (empty s p) ∙ e)
      ∙ sum_to-zero slots in
    record {
      num = sym (none_of used refl);
      total = sym (none_of value refl);
      squares = sym (none_of square refl);
    }

replicate-le : (n a b : ℕ) → a ≤ b → (j : ℕ) → get_or (replicate n a) j 0 ≤ b
replicate-le zero a b h j = omega arith
replicate-le (suc n) a b h zero = h
replicate-le (suc n) a b h (suc j) = replicate-le n a b h j

-- Nothing but invalid samples, and no statistics.
blank-IsConsistent :
    {F : Type 0} ⦃f : Float F⦄ (n : ℕ) (t : TemporalFilter F)
    → 0 < t.config.num_averaging_slots
    → t.config.num_averaging_slots < u32_mod
    → t.averaging_slot_index ≡ 0
    → t.averaging_buffer ≡ replicate (n * t.config.num_averaging_slots) invalid_depth
    → t.pixel_stats ≡ replicate n no_statistics
    → length t.valid_buffer ≡ n
    → IsConsistent n t
blank-IsConsistent n t some_slot few index buffer stats valid =
    let slots = t.config.num_averaging_slots in
    record {
      buffer_length = rw (buffer, length-replicate (n * slots) invalid_depth) refl;
      stats_length = rw stats (length-replicate n no_statistics);
      valid_length = valid;
      slot_inside = omega (arith, index);
      few_slots = few;
      samples = rw buffer (replicate-le (n * slots) invalid_depth invalid_depth (omega arith));
      tracks = λ p p_lt.
          rw (buffer, stats, get_or-replicate n p no_statistics no_statistics p_lt)
            (empty-Tracks slots (window n p (replicate (n * slots) invalid_depth)) (λ s s_lt.
              get_or-replicate (n * slots) (p + s * n) invalid_depth 0
                (slot-lt n p s slots p_lt s_lt)));
    }

resize_nil : {A : Type 0} (n : ℕ) (a : A) → resize n a [] ≡ replicate n a
unfolding resize
resize_nil zero a = refl
resize_nil (suc n) a = ap (λ m. replicate m a) {y = suc n} (omega arith)

get_or-resize :
    {A : Type 0} (n : ℕ) (a : A) (xs : List A) (i : ℕ) (d : A)
    → i < n
    → n ≤ length xs
    → get_or (resize n a xs) i d ≡ get_or xs i d
unfolding resize
get_or-resize n a xs i d i_lt le =
    get_or-append (take n xs) _ i d (omega (arith, length-take n xs)) ∙ get_or-take n xs i d i_lt

module _ {F : Type 0} ⦃f : Float F⦄ where
  -- A new filter with at least one slot and fewer than 2^32 is consistent once it is initialized.
  pub initialize-IsConsistent :
      (w h : ℕ) (c : FilterConfig F)
      → 0 < c.num_averaging_slots
      → c.num_averaging_slots < u32_mod
      → IsConsistent (pixels w h) (initialize w h (create c))
  unfolding initialize create
  initialize-IsConsistent w h c some_slot few =
      blank-IsConsistent (pixels w h) (initialize w h (create c)) some_slot few refl
        (resize_nil (pixels w h * c.num_averaging_slots) invalid_depth)
        (resize_nil (pixels w h) no_statistics)
        (ap length (resize_nil (pixels w h) _) ∙ length-replicate (pixels w h) _)

  -- A consistent filter is consistent after `reset`.
  pub reset-IsConsistent :
      (n : ℕ) (t : TemporalFilter F) → IsConsistent n t → IsConsistent n (reset t)
  unfolding reset
  reset-IsConsistent n t ok =
      blank-IsConsistent n (reset t) (omega (arith, ok.slot_inside)) ok.few_slots refl
        (ap (λ m. replicate m invalid_depth) ok.buffer_length)
        (ap (λ m. replicate m no_statistics) ok.stats_length)
        (length-replicate (length t.valid_buffer) _ ∙ ok.valid_length)

  -- A change of size to at most as many pixels, with a buffer that is long enough already, clears no
  -- statistics: pixel `p` keeps the sums that were kept for the former pixel `p`, while its window is
  -- read from the samples of the former buffer at the new stride, `w * h`.
  pub initialize_keeps :
      (w h p s : ℕ) (t : TemporalFilter F)
      → p < pixels w h
      → s < t.config.num_averaging_slots
      → pixels w h ≤ length t.pixel_stats
      → pixels w h * t.config.num_averaging_slots ≤ length t.averaging_buffer
      → (get_or (initialize w h t).pixel_stats p no_statistics
          ≡ get_or t.pixel_stats p no_statistics)
        × (window (pixels w h) p (initialize w h t).averaging_buffer s
            ≡ get_or t.averaging_buffer (p + s * pixels w h) 0)
  unfolding initialize
  initialize_keeps w h p s t p_lt s_lt stats_le buffer_le = (
    get_or-resize (pixels w h) no_statistics t.pixel_stats p no_statistics p_lt stats_le,
    get_or-resize (pixels w h * t.config.num_averaging_slots) invalid_depth t.averaging_buffer
        (p + s * pixels w h) 0 (slot-lt (pixels w h) p s t.config.num_averaging_slots p_lt s_lt)
        buffer_le,
  )
