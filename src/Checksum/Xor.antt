-- ===== src/Checksum/Xor.antt =====
-- Laws of the exclusive or of natural numbers, digit by digit.
use Prim.Native.Nat.{
  bitwise, bit_and, bit_xor, digits, differ, min, bit_and-bitwise, bit_xor-bitwise,
}
use caldera_sandbox.Base.{
  ℕ, zero, suc, ◌+◌, ◌*◌, ◌/◌, ◌%◌, ◌≤◌, ◌<◌, ◌≡◌, ◌⊎◌, inl, inr, refl, sym, ap, ◌∙◌, arith,
}

-- `q` with `k` zeros below it.
abbrev pub shifted : ℕ → ℕ → ℕ
shifted zero q = q
shifted (suc k) q = 2 * shifted k q

-- `x` without its `k` lowest digits.
abbrev pub halves : ℕ → ℕ → ℕ
halves zero x = x
halves (suc k) x = halves k (x / 2)

less_or_last : (a n : ℕ) → a ≤ suc n → (a ≤ n) ⊎ (a ≡ suc n)
less_or_last a n h = grind arith

module _ (z : ℕ → ℕ) (f : ℕ → ℕ → ℕ) where
  -- One more step than the number asks for changes nothing.
  digits-more : (n a b : ℕ) → a ≤ n → digits z f (suc n) a b ≡ digits z f n a b
  digits-more zero zero b h = refl
  digits-more zero (suc a) b h = absurd (omega arith)
  digits-more (suc n) zero b h = refl
  digits-more (suc n) (suc a) b h =
      ap (λ d. d * 2 + f (suc a % 2) (b % 2)) (digits-more n (suc a / 2) (b / 2) (omega arith))

  digits-enough : (n a b : ℕ) → a ≤ n → digits z f n a b ≡ bitwise z f a b
  digits-enough zero a b h = ap (λ n. digits z f n a b) {x = zero} {y = a} (omega arith)
  digits-enough (suc n) a b h = elim (less_or_last a n h) [
    | inl less ↦ digits-more n a b less ∙ digits-enough n a b less
    | inr last ↦ ap (λ n. digits z f n a b) (sym last)
  ]

  -- The lowest digit and the rest.
  bitwise_step :
      (a b : ℕ)
      → bitwise z f (suc a) b ≡ bitwise z f (suc a / 2) (b / 2) * 2 + f (suc a % 2) (b % 2)
  bitwise_step a b =
      ap (λ d. d * 2 + f (suc a % 2) (b % 2)) (digits-enough a (suc a / 2) (b / 2) (omega arith))

pub zero-bit_xor : (b : ℕ) → bit_xor 0 b ≡ b
zero-bit_xor b = bit_xor-bitwise 0 b

bit_xor_step : (a b : ℕ) → bit_xor a b ≡ bit_xor (a / 2) (b / 2) * 2 + differ (a % 2) (b % 2)
bit_xor_step zero b = omega (arith, zero-bit_xor b, zero-bit_xor (b / 2))
bit_xor_step (suc a) b =
    bit_xor-bitwise (suc a) b
    ∙ bitwise_step (λ b. b) differ a b
    ∙ ap (λ d. d * 2 + differ (suc a % 2) (b % 2)) (sym (bit_xor-bitwise (suc a / 2) (b / 2)))

pub differ-le : (x y : ℕ) → x ≤ 1 → y ≤ 1 → differ x y ≤ 1
differ-le zero y p q = q
differ-le (suc zero) zero p q = omega arith
differ-le (suc zero) (suc zero) p q = omega arith
differ-le (suc zero) (suc (suc y)) p q = absurd (omega arith)
differ-le (suc (suc x)) y p q = absurd (omega arith)

differ_assoc : (x y z : ℕ) → x ≤ 1 → y ≤ 1 → z ≤ 1 → differ (differ x y) z ≡ differ x (differ y z)
differ_assoc zero y z p q r = refl
differ_assoc (suc zero) zero z p q r = refl
differ_assoc (suc zero) (suc zero) zero p q r = refl
differ_assoc (suc zero) (suc zero) (suc zero) p q r = refl
differ_assoc (suc zero) (suc zero) (suc (suc z)) p q r = absurd (omega arith)
differ_assoc (suc zero) (suc (suc y)) z p q r = absurd (omega arith)
differ_assoc (suc (suc x)) y z p q r = absurd (omega arith)

pub half-bit_xor : (a b : ℕ) → bit_xor a b / 2 ≡ bit_xor (a / 2) (b / 2)
half-bit_xor a b =
    omega (arith, bit_xor_step a b, differ-le (a % 2) (b % 2) (omega arith) (omega arith))

pub low-bit_xor : (a b : ℕ) → bit_xor a b % 2 ≡ differ (a % 2) (b % 2)
low-bit_xor a b =
    omega (arith, bit_xor_step a b, differ-le (a % 2) (b % 2) (omega arith) (omega arith))

assoc_fuel :
    (n a b c : ℕ) → a ≤ n → b ≤ n → c ≤ n → bit_xor (bit_xor a b) c ≡ bit_xor a (bit_xor b c)
assoc_fuel zero zero zero zero p q r = refl
assoc_fuel zero (suc a) b c p q r = absurd (omega arith)
assoc_fuel zero zero (suc b) c p q r = absurd (omega arith)
assoc_fuel zero zero zero (suc c) p q r = absurd (omega arith)
assoc_fuel (suc n) a b c p q r =
    let left : bit_xor (bit_xor a b) c
        ≡ bit_xor (bit_xor (a / 2) (b / 2)) (c / 2) * 2 + differ (differ (a % 2) (b % 2)) (c % 2) =
      rw (bit_xor_step (bit_xor a b) c, half-bit_xor a b, low-bit_xor a b) refl in
    let right : bit_xor a (bit_xor b c)
        ≡ bit_xor (a / 2) (bit_xor (b / 2) (c / 2)) * 2 + differ (a % 2) (differ (b % 2) (c % 2)) =
      rw (bit_xor_step a (bit_xor b c), half-bit_xor b c, low-bit_xor b c) refl in
    omega (
      arith,
      left,
      right,
      assoc_fuel n (a / 2) (b / 2) (c / 2) (omega arith) (omega arith) (omega arith),
      differ_assoc (a % 2) (b % 2) (c % 2) (omega arith) (omega arith) (omega arith),
    )

pub bit_xor_assoc : (a b c : ℕ) → bit_xor (bit_xor a b) c ≡ bit_xor a (bit_xor b c)
bit_xor_assoc a b c = assoc_fuel (a + b + c) a b c (omega arith) (omega arith) (omega arith)

differ-zero : (x : ℕ) → differ x 0 ≡ x
differ-zero zero = refl
differ-zero (suc x) = refl

bit_xor-zero_fuel : (n a : ℕ) → a ≤ n → bit_xor a 0 ≡ a
bit_xor-zero_fuel zero zero h = refl
bit_xor-zero_fuel zero (suc a) h = absurd (omega arith)
bit_xor-zero_fuel (suc n) a h =
    omega (arith, bit_xor_step a 0, bit_xor-zero_fuel n (a / 2) (omega arith), differ-zero (a % 2))

pub bit_xor-zero : (a : ℕ) → bit_xor a 0 ≡ a
bit_xor-zero a = bit_xor-zero_fuel a a (omega arith)

pub halves-bit_xor : (k a b : ℕ) → halves k (bit_xor a b) ≡ bit_xor (halves k a) (halves k b)
halves-bit_xor zero a b = refl
halves-bit_xor (suc k) a b = ap (halves k) (half-bit_xor a b) ∙ halves-bit_xor k (a / 2) (b / 2)

even-half : (s : ℕ) → 2 * s / 2 ≡ s
even-half s = omega arith

even-low : (s : ℕ) → 2 * s % 2 ≡ 0
even-low s = omega arith

-- A number above the digits of another is added to it.
pub bit_xor-shifted : (k r q : ℕ) → r < shifted k 1 → bit_xor r (shifted k q) ≡ r + shifted k q
bit_xor-shifted zero zero q h = omega (arith, zero-bit_xor q)
bit_xor-shifted zero (suc r) q h = absurd (omega arith)
bit_xor-shifted (suc k) r q h =
    let s = shifted k q in
    let step : bit_xor r (2 * s) ≡ bit_xor (r / 2) s * 2 + differ (r % 2) 0 =
      bit_xor_step r (2 * s)
      ∙ ap (λ x. bit_xor (r / 2) x * 2 + differ (r % 2) (2 * s % 2)) (even-half s)
      ∙ ap (λ x. bit_xor (r / 2) s * 2 + differ (r % 2) x) (even-low s) in
    let rest = bit_xor-shifted k (r / 2) q (omega arith) in
    omega (arith, step, rest, differ-zero (r % 2))

bit_and_odd : (a m : ℕ) → bit_and a (2 * m + 1) ≡ bit_and (a / 2) m * 2 + a % 2
bit_and_odd zero m = omega (arith, bit_and-bitwise 0 (2 * m + 1), bit_and-bitwise 0 m)
bit_and_odd (suc a) m =
    let half : (2 * m + 1) / 2 ≡ m = omega arith in
    omega (
      arith,
      bitwise_step (λ b. zero) min a (2 * m + 1),
      ap (bit_and (suc a / 2)) half,
      bit_and-bitwise (suc a) (2 * m + 1),
      bit_and-bitwise (suc a / 2) ((2 * m + 1) / 2),
    )

bit_and_zero : (n a : ℕ) → a ≤ n → digits (λ b. zero) min n a 0 ≡ 0
bit_and_zero zero a h = refl
bit_and_zero (suc n) zero h = refl
bit_and_zero (suc n) (suc a) h = omega (arith, bit_and_zero n (suc a / 2) (omega arith))

pub bit_and-one : (a : ℕ) → bit_and a 1 ≡ a % 2
bit_and-one a =
    omega (
      arith,
      bit_and_odd a 0,
      bit_and-bitwise (a / 2) 0,
      bit_and_zero (a / 2) (a / 2) (omega arith),
    )

pub bit_and_byte : (a : ℕ) → bit_and a 255 ≡ a % 256
bit_and_byte a = omega (
  arith,
  bit_and_odd a 127,
  bit_and_odd (a / 2) 63,
  bit_and_odd (a / 2 / 2) 31,
  bit_and_odd (a / 2 / 2 / 2) 15,
  bit_and_odd (a / 2 / 2 / 2 / 2) 7,
  bit_and_odd (a / 2 / 2 / 2 / 2 / 2) 3,
  bit_and_odd (a / 2 / 2 / 2 / 2 / 2 / 2) 1,
  bit_and-one (a / 2 / 2 / 2 / 2 / 2 / 2 / 2),
)

differ-same : (x : ℕ) → differ x x ≡ 0
differ-same zero = refl
differ-same (suc x) = differ-same x

bit_xor-same_fuel : (n a : ℕ) → a ≤ n → bit_xor a a ≡ 0
bit_xor-same_fuel zero zero h = refl
bit_xor-same_fuel zero (suc a) h = absurd (omega arith)
bit_xor-same_fuel (suc n) a h =
    omega (arith, bit_xor_step a a, bit_xor-same_fuel n (a / 2) (omega arith), differ-same (a % 2))

bit_xor-same : (a : ℕ) → bit_xor a a ≡ 0
bit_xor-same a = bit_xor-same_fuel a a (omega arith)

twice-right : (a c : ℕ) → bit_xor (bit_xor a c) c ≡ a
twice-right a c = bit_xor_assoc a c c ∙ ap (bit_xor a) (bit_xor-same c) ∙ bit_xor-zero a

twice-left : (a c : ℕ) → bit_xor c (bit_xor c a) ≡ a
twice-left a c = sym (bit_xor_assoc c c a) ∙ ap (λ x. bit_xor x a) (bit_xor-same c) ∙ zero-bit_xor a

pub cancel-right : (a b c : ℕ) → bit_xor a c ≡ bit_xor b c → a ≡ b
cancel-right a b c e = sym (twice-right a c) ∙ ap (λ x. bit_xor x c) e ∙ twice-right b c

pub cancel-left : (a b c : ℕ) → bit_xor c a ≡ bit_xor c b → a ≡ b
cancel-left a b c e = sym (twice-left a c) ∙ ap (bit_xor c) e ∙ twice-left b c

-- Nothing is left of a number without its digits.
pub halves-none : (k x : ℕ) → x < shifted k 1 → halves k x ≡ 0
halves-none zero x h = omega arith
halves-none (suc k) x h = halves-none k (x / 2) (omega arith)
