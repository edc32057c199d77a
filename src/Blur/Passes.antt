-- ===== src/Blur/Passes.antt =====
-- The box passes of `FastGaussianBlur`. A row is a line of neighbours, a column a line whose values are a
-- row apart. A read or a write out of bounds is a fault (`none`). So is an index that
-- no `int` holds: the last one that the loops over a column reach is `w` beyond the map's last row.
use caldera_sandbox.Base.{
  ℕ, zero, suc, ◌+◌, ◌-◌, ◌*◌, Option, none, some, List, ltb, if◌then◌else◌, length, get_elem?, set,
  ◌>>=◌,
}
use caldera_sandbox.Base.Int.{int_index}
use caldera_sandbox.Base.Float.{Float}

-- `val`, the three indices, and the buffer that is written.
pub record Window (F : Type 0) : Type 0 where
  pub val : F
  pub ti : ℕ
  pub li : ℕ
  pub ri : ℕ
  pub out : List F

module _ {F : Type 0} where
  unfoldable pub write : List F → ℕ → F → Option (List F)
  write out i v = if ltb i (length out) then some (set out i v) else none

  -- A value that is given, or else the one at `i`.
  unfoldable pub value_at : Option F → List F → ℕ → Option F
  value_at none s i = get_elem? s i
  value_at (some v) s i = some v

  -- An index moves on when its values are read.
  unfoldable pub moved : Option F → ℕ → ℕ → ℕ
  moved none step i = i + step
  moved (some v) step i = i

module _ {F : Type 0} ⦃f : Float F⦄ where
  open f use {of_ℕ, ratio, add, sub, mul, div}

  -- One of the three loops over a line, with `n` rounds left: values enter on the right and leave on the
  -- left, or are those of the line's ends, which are given.
  unfoldable pub slide : List F → ℕ → F → Option F → Option F → ℕ → Window F → Option (Window F)
  unfolding write value_at moved
  slide s step iarr right left zero c = some c
  slide s step iarr right left (suc n) c = value_at right s c.ri >>= λ enters.
      (value_at left s c.li >>= λ leaves.
      (let val = add c.val (sub enters leaves) in
        write c.out c.ti (mul val iarr) >>= λ out. slide s step iarr right left n (record {
          val = val;
          ti = c.ti + step;
          li = moved left step c.li;
          ri = moved right step c.ri;
          out = out;
        })))

  -- `val += in[ti+j]` for `j < n`, from the index `i` on.
  unfoldable pub sum_from : List F → ℕ → ℕ → ℕ → F → Option F
  sum_from s step i zero val = some val
  sum_from s step i (suc n) val = get_elem? s i >>= λ v. sum_from s step (i + step) n (add val v)

  -- The three loops over a line of `n` values, whose ends are `fv` and `lv`.
  unfoldable pub slides : List F → ℕ → F → F → F → ℕ → ℕ → Window F → Option (Window F)
  unfolding slide
  slides s step iarr fv lv n r c = slide s step iarr none (some fv) (r + 1) c >>= λ c₁.
      (slide s step iarr none none (n - r - (r + 1)) c₁ >>= λ c₂.
      slide s step iarr (some lv) none r c₂)

  -- A line of `n` values from the index `t` on.
  unfoldable pub blur_line : List F → ℕ → ℕ → ℕ → ℕ → List F → Option (List F)
  unfolding slides sum_from
  blur_line s step n r t out = get_elem? s t >>= λ fv.
      (get_elem? s (t + step * (n - 1)) >>= λ lv.
      (sum_from s step t r (mul (of_ℕ (r + 1)) fv) >>= λ val.
      (slides s step (div (ratio 1 1) (of_ℕ (r + r + 1))) fv lv n r
          (record { val = val; ti = t; li = t; ri = t + step * r; out = out })
        >>= λ c. some c.out)))

  -- Lines from the `i`-th on, `k` of them left; the first value of a line is `apart` from the next one's.
  unfoldable pub blur_lines : List F → ℕ → ℕ → ℕ → ℕ → ℕ → ℕ → List F → Option (List F)
  unfolding blur_line
  blur_lines s step n r apart i zero out = some out
  blur_lines s step n r apart i (suc k) out =
      blur_line s step n r (i * apart) out >>= λ out₁. blur_lines s step n r apart (i + 1) k out₁

  unfoldable pub horizontal_blur : List F → List F → ℕ → ℕ → ℕ → Option (List F)
  unfolding blur_lines
  horizontal_blur s out w h r = int_index (w * h) >>= λ _. blur_lines s 1 w r w 0 h out

  unfoldable pub total_blur : List F → List F → ℕ → ℕ → ℕ → Option (List F)
  unfolding blur_lines
  total_blur s out w h r = int_index (w * h + w - 1) >>= λ _. blur_lines s w h r 1 0 w out
