-- ===== src/Blur/Lines.antt =====
-- A line, and a pass over all lines, of a map with room for the radius.
use caldera_sandbox.Base.{
  ℕ, zero, suc, ◌+◌, ◌-◌, ◌*◌, ◌≤◌, ◌<◌, ◌≡◌, refl, ap, ◌∙◌, none, some, List, arith, length,
  get_elem?-some,
}
use caldera_sandbox.Base.Int.{int_limit, int_index-some}
use caldera_sandbox.Base.Float.{Float}
use caldera_sandbox.Blur.Passes.{
  Window, slides, sum_from, blur_line, blur_lines, horizontal_blur, total_blur,
}
use caldera_sandbox.Blur.Bounds.{Fits, IsAt, next_step, slide-IsAt}

start : (t step : ℕ) → t ≡ t + step * 0
start t step = grind arith

inside_row : (w h i : ℕ) → i < h → (k : ℕ) → k < w → i * w + 1 * k < w * h
inside_row w h i hi k hk = grind arith

inside_column : (w h i : ℕ) → i < w → (k : ℕ) → k < h → i * 1 + w * k < w * h
inside_column w h i hi k hk = grind arith

module _ {F : Type 0} ⦃f : Float F⦄ where
  open f use {of_ℕ, ratio, add, mul, div}

  sum_from-some :
      (s : List F) (t step len k n : ℕ) (val : F)
      → Fits t step len (length s)
      → k + n ≤ len
      → (v : F) × (sum_from s step (t + step * k) n val ≡ some v)
  unfolding sum_from
  sum_from-some s t step len k zero val fits h = (val, refl)
  sum_from-some s t step len k (suc n) val fits h =
      let (x, ex) = get_elem?-some s (t + step * k) (fits k (omega arith)) in
      let (v, e) = sum_from-some s t step len (k + 1) n (add val x) fits (omega arith) in
      (v, rw (ex, next_step t step k) e)

  sum_from-start :
      (s : List F) (t step len n : ℕ) (val : F)
      → Fits t step len (length s)
      → n ≤ len
      → (v : F) × (sum_from s step t n val ≡ some v)
  sum_from-start s t step len n val fits h =
      let (v, e) = sum_from-some s t step len 0 n val fits (omega arith) in
      (v, ap (λ i. sum_from s step i n val) (start t step) ∙ e)

  -- The three loops of a line, from where the sum is known.
  slides-some :
      (s : List F) (iarr fv lv : F) (t step len r size : ℕ) (c : Window F)
      → Fits t step len (length s)
      → Fits t step len size
      → r + r + 1 ≤ len
      → IsAt t step r 0 0 size c
      → (c' : Window F) × (slides s step iarr fv lv len r c ≡ some c') × (length c'.out ≡ size)
  unfolding slides
  slides-some s iarr fv lv t step len r size c fits fits' room at =
      let (c₁, e₁, at₁) =
        slide-IsAt s iarr none (some fv) t step len r 0 0 size (r + 1) c fits fits' at (omega arith)
          (omega arith) (omega arith) in
      let (c₂, e₂, at₂) =
        slide-IsAt s iarr none none t step len _ _ _ size (len - r - (r + 1)) c₁ fits fits' at₁
          (omega arith) (omega arith) (omega arith) in
      let (c₃, e₃, at₃) =
        slide-IsAt s iarr (some lv) none t step len _ _ _ size r c₂ fits fits' at₂ (omega arith)
          (omega arith) (omega arith) in
      (c₃, rw (e₁, e₂, e₃) refl, at₃.size)

  blur_line-some :
      (s out : List F) (t step len r : ℕ)
      → Fits t step len (length s)
      → Fits t step len (length out)
      → r + r + 1 ≤ len
      → (out' : List F) × (blur_line s step len r t out ≡ some out') × (length out' ≡ length out)
  unfolding blur_line
  blur_line-some s out t step len r fits fits' room =
      let iarr = div (ratio 1 1) (of_ℕ (r + r + 1)) in
      let (fv, ef) = get_elem?-some s t (omega (arith, start t step, fits 0 (omega arith))) in
      let (lv, el) = get_elem?-some s (t + step * (len - 1)) (fits (len - 1) (omega arith)) in
      let (val, ev) = sum_from-start s t step len r (mul (of_ℕ (r + 1)) fv) fits (omega arith) in
      let c : Window F = record { val = val; ti = t; li = t; ri = t + step * r; out = out } in
      let at : IsAt t step r 0 0 (length out) c = record {
        ri = refl;
        li = start t step;
        ti = start t step;
        size = refl;
      } in
      let (c', e, size') =
        slides-some s iarr fv lv t step len r (length out) c fits fits' room at in
      (c'.out, rw (ef, el, ev, e) refl, size')

  blur_lines-some :
      (s out : List F) (step len r apart i k n area : ℕ)
      → ((j : ℕ) → j < n → Fits (j * apart) step len area)
      → r + r + 1 ≤ len
      → i + k ≤ n
      → area ≤ length s
      → area ≤ length out
      → (out' : List F) × (blur_lines s step len r apart i k out ≡ some out')
        × (length out' ≡ length out)
  unfolding blur_lines
  blur_lines-some s out step len r apart i zero n area fits room h hs ho = (out, refl, refl)
  blur_lines-some s out step len r apart i (suc k) n area fits room h hs ho =
      let here = fits i (omega arith) in
      let (out₁, e₁, size₁) =
        blur_line-some s out (i * apart) step len r (λ j j_lt. omega (arith, here j j_lt))
          (λ j j_lt. omega (arith, here j j_lt)) room in
      let (out', e, size') =
        blur_lines-some s out₁ step len r apart (i + 1) k n area fits room (omega arith) hs
          (omega arith) in
      (out', rw e₁ e, size' ∙ size₁)

  pub horizontal_blur-some :
      (s out : List F) (w h r : ℕ)
      → w * h ≤ length s
      → w * h ≤ length out
      → r + r + 1 ≤ w
      → w * h + w ≤ int_limit
      → (out' : List F) × (horizontal_blur s out w h r ≡ some out') × (length out' ≡ length out)
  unfolding horizontal_blur
  horizontal_blur-some s out w h r hs ho room small =
      rw (int_index-some (w * h) (omega arith))
        (blur_lines-some s out 1 w r w 0 h h (w * h) (inside_row w h) room (omega arith) hs ho)

  pub total_blur-some :
      (s out : List F) (w h r : ℕ)
      → w * h ≤ length s
      → w * h ≤ length out
      → r + r + 1 ≤ h
      → w * h + w ≤ int_limit
      → (out' : List F) × (total_blur s out w h r ≡ some out') × (length out' ≡ length out)
  unfolding total_blur
  total_blur-some s out w h r hs ho room small =
      rw (int_index-some (w * h + w - 1) (omega arith))
        (blur_lines-some s out w h r 1 0 w w (w * h) (inside_column w h) room (omega arith) hs ho)
