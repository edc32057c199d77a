-- ===== src/Base/Fixed.antt =====
-- Signed decimals with six places, and a value that is no number: an instance of `Float` on which the
-- definitions run. `none` compares with nothing, as NaN does.
use caldera_sandbox.Base.{
  ℕ, ◌+◌, ◌-◌, ◌*◌, ◌/◌, Bool, true, false, not, ◌&&◌, Option, none, some, leb, ◌==◌, if◌then◌else◌,
}
use caldera_sandbox.Base.Int.{ℤ, pos, negsuc, pos_part, neg_part, ltb_ℤ}
use caldera_sandbox.Base.Float.{Float}

abbrev pub Fixed : Type 0
Fixed = Option ℤ

abbrev unit : ℕ
unit = 1_000_000

abbrev diff : ℕ → ℕ → ℤ
diff a b = if leb b a then pos (a - b) else negsuc (b - a - 1)

abbrev lift₂ : (ℤ → ℤ → ℤ) → Fixed → Fixed → Fixed
lift₂ f (some a) (some b) = some (f a b)
lift₂ f _ _ = none

abbrev test₂ : (ℤ → ℤ → Bool) → Fixed → Fixed → Bool
test₂ f (some a) (some b) = f a b
test₂ f _ _ = false

abbrev plus : ℤ → ℤ → ℤ
plus a b = diff (pos_part a + pos_part b) (neg_part a + neg_part b)

abbrev minus : ℤ → ℤ → ℤ
minus a b = diff (pos_part a + neg_part b) (neg_part a + pos_part b)

-- A product or a quotient from the sizes and the signs.
abbrev pub by_sign : (ℕ → ℕ → ℕ) → ℤ → ℤ → ℤ
by_sign f a b =
    let size = f (pos_part a + neg_part a) (pos_part b + neg_part b) in
    if (neg_part a == 0) && (neg_part b == 0)
    then pos size
    else (if (pos_part a == 0) && (pos_part b == 0) then pos size else diff 0 size)

abbrev divide : Fixed → Fixed → Fixed
divide (some a) (some b) =
    if pos_part b + neg_part b == 0 then none else some (by_sign (λ x y. x * unit / y) a b)
divide _ _ = none

abbrev absolute : Fixed → Fixed
absolute none = none
absolute (some a) = some (pos (pos_part a + neg_part a))

abbrev to_number : Fixed → ℕ
to_number none = 0
to_number (some a) = pos_part a / unit

abbrev is_number : Fixed → Bool
is_number none = false
is_number (some a) = true

instance abbrev pub fixed_float : Float Fixed
fixed_float = record {
  of_ℕ = λ n. some (pos (n * unit));
  truncate = to_number;
  ratio = λ n d. some (pos (n * unit / d));
  add = lift₂ plus;
  sub = lift₂ minus;
  mul = lift₂ (by_sign (λ x y. x * y / unit));
  div = divide;
  abs = absolute;
  eq = test₂ (λ a b. not (ltb_ℤ a b) && not (ltb_ℤ b a));
  lt = test₂ ltb_ℤ;
  le = test₂ (λ a b. not (ltb_ℤ b a));
  is_finite = is_number;
  nan = none;
}
