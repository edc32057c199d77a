-- ===== src/Manager/Metrics.antt =====
-- The measures of `updateMetrics` that the next frame's gating reads: the running variance and the share of
-- stable neighbours. Sums are `double`s.
use caldera_sandbox.Base.{
  ℕ, zero, suc, ◌+◌, ◌*◌, ◌&&◌, Option, some, List, [], ◌∷◌, ltb, if◌then◌else◌, get_elem?, ◌>>=◌,
}
use caldera_sandbox.Base.Words.{inc32}
use caldera_sandbox.Base.Float.{Float}

-- What is kept from a frame: `emaVariance_` is also the `avgVariance` of the metrics.
pub record Measures (F : Type 0) : Type 0 where
  pub ema_variance : F
  pub stability_ratio : F

-- The values at `at`, `at + 1` and so on, each with the one before it; `none` is a read out of bounds.
unfoldable pub row_pairs : {F : Type 0} → List F → ℕ → ℕ → Option (List (F × F))
row_pairs values at zero = some []
row_pairs values at (suc left) = get_elem? values at >>= λ a. get_elem? values (at + 1) >>= λ b.
    row_pairs values (at + 1) left >>= λ pairs. some ((a, b) ∷ pairs)

-- The pairs of neighbours in the rows from the `y`-th on, before those in `pairs`.
unfoldable pub neighbours : {F : Type 0} → List F → ℕ → ℕ → ℕ → Option (List (List (F × F)))
unfolding row_pairs
neighbours values w y zero = some []
neighbours values zero y (suc left) = some []
neighbours values (suc w) y (suc left) = row_pairs values (y * suc w) w >>= λ row.
    neighbours values (suc w) (y + 1) left >>= λ rows. some (row ∷ rows)

module _ {F : Type 0} ⦃f : Float F⦄ {D : Type 0} ⦃d : Float D⦄ (widen : F → D)
    (narrow : D → F) where
  open f use {of_ℕ, ratio, add, sub, mul, div, abs, eq, le, is_finite}

  -- `totalDiff` and `countDiff` after a pair.
  unfoldable pub add_diff : F × F → D × ℕ → D × ℕ
  add_diff (a, b) (total, count) =
      if is_finite a && is_finite b
      then (d.add total (widen (abs (sub a b))), inc32 count)
      else (total, count)

  -- `stable` and `considered` after a pair.
  unfoldable pub add_stable : F → F × F → ℕ × ℕ → ℕ × ℕ
  add_stable threshold (a, b) (stable, considered) =
      if is_finite a && is_finite b
      then (if le (abs (sub a b)) threshold then inc32 stable else stable, inc32 considered)
      else (stable, considered)

  unfoldable pub fold_pairs : {S : Type 0} → (F × F → S → S) → List (F × F) → S → S
  fold_pairs step [] s = s
  fold_pairs step (p ∷ ps) s = fold_pairs step ps (step p s)

  unfoldable pub fold_rows : {S : Type 0} → (F × F → S → S) → List (List (F × F)) → S → S
  unfolding fold_pairs
  fold_rows step [] s = s
  fold_rows step (row ∷ rows) s = fold_rows step rows (fold_pairs step row s)

  unfoldable pub measure : List (List (F × F)) → Measures F → Measures F
  unfolding add_diff add_stable fold_rows
  measure rows m =
      let (total, count) = fold_rows add_diff rows (d.ratio 0 1, 0) in
      let mean = if ltb 0 count then narrow (d.div total (d.of_ℕ count)) else ratio 0 1 in
      let alpha = ratio 1 10 in
      let (stable, considered) =
        fold_rows (add_stable (add (mul mean (ratio 3 2)) (ratio 1 1_000_000))) rows (0, 0) in
      record {
        ema_variance =
            if eq m.ema_variance (ratio 0 1)
            then mean
            else add (mul alpha mean) (mul (sub (ratio 1 1) alpha) m.ema_variance);
        stability_ratio =
            if ltb 0 considered then div (of_ℕ stable) (of_ℕ considered) else ratio 1 1;
      }

  unfoldable pub update_metrics : List F → ℕ → ℕ → Measures F → Option (Measures F)
  unfolding neighbours measure
  update_metrics fused w h m = neighbours fused w 0 h >>= λ rows. some (measure rows m)
