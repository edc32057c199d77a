-- ===== src/Base/Int.antt =====
-- The `int` values of the source: signed integers over the native numbers, under the library's names.
use caldera_sandbox.Base.{
  ℕ, suc, ◌+◌, ◌-◌, ◌*◌, ◌%◌, ◌^◌, ◌<◌, ◌≡◌, refl, Bool, Option, none, some, ltb, lt→ltb,
  if◌then◌else◌,
}

-- `negsuc n` is -(n + 1).
pub data ℤ : Type 0 where
  pos : ℕ → ℤ
  negsuc : ℕ → ℤ

abbrev pub pos_part : ℤ → ℕ
pos_part (pos n) = n
pos_part (negsuc n) = 0

abbrev pub neg_part : ℤ → ℕ
neg_part (pos n) = 0
neg_part (negsuc n) = suc n

abbrev pub ltb_ℤ : ℤ → ℤ → Bool
ltb_ℤ a b = ltb (pos_part a + neg_part b) (pos_part b + neg_part a)

-- `static_cast<uint32_t>` of an `int`.
abbrev pub to_u32 : ℤ → ℕ
to_u32 (pos n) = n % 2 ^ 32
to_u32 (negsuc n) = 2 ^ 32 - 1 - n % 2 ^ 32

-- `static_cast<size_t>` of an `int`.
abbrev pub to_u64 : ℤ → ℕ
to_u64 (pos n) = n % 2 ^ 64
to_u64 (negsuc n) = 2 ^ 64 - 1 - n % 2 ^ 64

-- `int` of a `uint32_t`.
abbrev pub to_i32 : ℕ → ℤ
to_i32 n = if ltb n (2 ^ 31) then pos n else negsuc (2 ^ 32 - 1 - n)

-- The values of an `int` that are not negative are those below.
abbrev pub int_limit : ℕ
int_limit = 2 ^ 31

-- A product or sum of `int`s that is not negative: beyond the limit it overflows.
unfoldable pub int_index : ℕ → Option ℕ
int_index n = if ltb n int_limit then some n else none

pub int_index-some : (n : ℕ) → n < int_limit → int_index n ≡ some n
unfolding int_index
int_index-some n h = rw (lt→ltb n int_limit h) refl

-- `w * h` as the size of a vector. A negative size is refused; two negative sides, whose product is
-- positive, are left out with it.
unfoldable pub int_area : ℤ → ℤ → Option ℕ
unfolding int_index
int_area (pos w) (pos h) = int_index (w * h)
int_area (pos w) (negsuc h) = none
int_area (negsuc w) h = none
