-- ===== src/Blur/Bounds.antt =====
-- The box passes stay inside the buffers.
use caldera_sandbox.Base.{
  ℕ, zero, suc, ◌+◌, ◌*◌, ◌≤◌, ◌<◌, ◌≡◌, refl, ap, ◌∙◌, Option, none, some, List, arith, lt→ltb,
  length, set, length-set, get_elem?-some,
}
use caldera_sandbox.Base.Float.{Float}
use caldera_sandbox.Blur.Passes.{Window, write, value_at, moved, slide}

-- `n` indices from `t` on, `step` apart, are below `len`.
abbrev pub Fits : ℕ → ℕ → ℕ → ℕ → Type 0
Fits t step n len = (k : ℕ) → k < n → t + step * k < len

-- Where the indices are after so many steps, and how long the buffer is.
pub record IsAt {F : Type 0} (t step right left at len : ℕ) (c : Window F) : Type 0 where
  pub ri : c.ri ≡ t + step * right
  pub li : c.li ≡ t + step * left
  pub ti : c.ti ≡ t + step * at
  pub size : length c.out ≡ len

-- An index that reads moves by `n` steps.
abbrev pub steps {ℓ} : {A : Type ℓ} → Option A → ℕ → ℕ
steps none n = n
steps (some v) n = 0

pub next_step : (t step k : ℕ) → t + step * k + step ≡ t + step * (k + 1)
next_step t step k = grind arith

module _ {F : Type 0} where
  value_at-some :
      (o : Option F) (s : List F) (t step n k : ℕ)
      → Fits t step n (length s)
      → k + steps o 1 ≤ n
      → (v : F) × (value_at o s (t + step * k) ≡ some v)
  unfolding value_at
  value_at-some none s t step n k fits h = get_elem?-some s (t + step * k) (fits k (omega arith))
  value_at-some (some v) s t step n k fits h = (v, refl)

  moved-steps :
      (o : Option F) (t step k : ℕ) → moved o step (t + step * k) ≡ t + step * (k + steps o 1)
  unfolding moved
  moved-steps none t step k = next_step t step k
  moved-steps (some v) t step k = grind arith

  steps-zero : (o : Option F) (k : ℕ) → k ≡ k + steps o 0
  steps-zero none k = omega arith
  steps-zero (some v) k = omega arith

  steps-suc : (o : Option F) (k n : ℕ) → k + steps o 1 + steps o n ≡ k + steps o (suc n)
  steps-suc none k n = omega arith
  steps-suc (some v) k n = omega arith

  write-some : (out : List F) (i : ℕ) (v : F) → i < length out → write out i v ≡ some (set out i v)
  unfolding write
  write-some out i v h = rw (lt→ltb i (length out) h) refl

module _ {F : Type 0} ⦃f : Float F⦄ where
  open f use {add, sub, mul}

  -- The window after a round.
  abbrev after_round : ℕ → F → Option F → Option F → F → F → Window F → Window F
  after_round step iarr right left x y c =
      let val = add c.val (sub x y) in
      record {
        val = val;
        ti = c.ti + step;
        li = moved left step c.li;
        ri = moved right step c.ri;
        out = set c.out c.ti (mul val iarr);
      }

  slide-suc :
      (s : List F) (step : ℕ) (iarr : F) (right left : Option F) (n : ℕ) (c : Window F) (x y : F)
      → value_at right s c.ri ≡ some x
      → value_at left s c.li ≡ some y
      → c.ti < length c.out
      → slide s step iarr right left (suc n) c
        ≡ slide s step iarr right left n (after_round step iarr right left x y c)
  unfolding slide
  slide-suc s step iarr right left n c x y ex ey h =
      rw (ex, ey, write-some c.out c.ti (mul (add c.val (sub x y)) iarr) h) refl

  after_round-IsAt :
      (t step r l a len : ℕ) (iarr : F) (right left : Option F) (x y : F) (c : Window F)
      → IsAt t step r l a len c
      → IsAt t step
          (r + steps right 1)
          (l + steps left 1)
          (a + 1)
          len
          (after_round step iarr right left x y c)
  after_round-IsAt t step r l a len iarr right left x y c at = record {
    ri = ap (moved right step) at.ri ∙ moved-steps right t step r;
    li = ap (moved left step) at.li ∙ moved-steps left t step l;
    ti = ap (λ i. i + step) at.ti ∙ next_step t step a;
    size = length-set c.out c.ti _ ∙ at.size;
  }

  pub slide-IsAt :
      (s : List F) (iarr : F) (right left : Option F) (t step len r l a size n : ℕ) (c : Window F)
      → Fits t step len (length s)
      → Fits t step len size
      → IsAt t step r l a size c
      → r + steps right n ≤ len
      → l + steps left n ≤ len
      → a + n ≤ len
      → (c' : Window F) × (slide s step iarr right left n c ≡ some c')
        × IsAt t step (r + steps right n) (l + steps left n) (a + n) size c'
  unfolding slide
  slide-IsAt s iarr right left t step len r l a size zero c fits fits' at hr hl ha = (
    c,
    refl,
    record {
      ri = at.ri ∙ ap (λ k. t + step * k) (steps-zero right r);
      li = at.li ∙ ap (λ k. t + step * k) (steps-zero left l);
      ti = at.ti ∙ ap (λ k. t + step * k) (omega arith);
      size = at.size;
    },
  )
  slide-IsAt s iarr right left t step len r l a size (suc n) c fits fits' at hr hl ha =
      let hr₁ : r + steps right 1 ≤ len = omega (arith, steps-suc right r n) in
      let hl₁ : l + steps left 1 ≤ len = omega (arith, steps-suc left l n) in
      let (x, ex) = value_at-some right s t step len r fits hr₁ in
      let (y, ey) = value_at-some left s t step len l fits hl₁ in
      let inside : c.ti < length c.out = omega (arith, fits' a (omega arith), at.ti, at.size) in
      let next = after_round-IsAt t step r l a size iarr right left x y c at in
      let (c', e, at') =
        slide-IsAt s iarr right left t step len (r + steps right 1) (l + steps left 1) (a + 1) size
          n (after_round step iarr right left x y c) fits fits' next
          (omega (arith, steps-suc right r n)) (omega (arith, steps-suc left l n)) (omega arith) in
      (
        c',
        slide-suc s step iarr right left n c x y (ap (value_at right s) at.ri ∙ ex)
              (ap (value_at left s) at.li ∙ ey) inside
            ∙ e,
        record {
          ri = at'.ri ∙ ap (λ k. t + step * k) (steps-suc right r n);
          li = at'.li ∙ ap (λ k. t + step * k) (steps-suc left l n);
          ti = at'.ti ∙ ap (λ k. t + step * k) (omega arith);
          size = at'.size;
        },
      )
