-- ===== src/Checksum/Range.antt =====
-- A checksum is a 32-bit number.
use Prim.Native.Nat.{bit_and, bit_xor, digits, differ, bit_xor-bitwise}
use caldera_sandbox.Base.{
  ℕ, zero, suc, ◌+◌, ◌*◌, ◌/◌, ◌%◌, ◌<◌, List, [], ◌∷◌, ◌==◌, arith, get_or, Bool-cases, inl, inr,
}
use caldera_sandbox.Base.Words.{u32_mod}
use caldera_sandbox.Checksum.Xor.{differ-le}
use caldera_sandbox.Checksum.{
  poly, shift_bit, shift_bits, table_from, crc_table, crc_loop, crc32_bytes, crc32, float_bytes,
}

-- 2 to the power of `k`.
abbrev binary : ℕ → ℕ
binary zero = 1
binary (suc k) = 2 * binary k

digits-lt : (k n a b : ℕ) → a < binary k → b < binary k → digits (λ b. b) differ n a b < binary k
digits-lt k zero a b p q = q
digits-lt k (suc n) zero b p q = q
digits-lt zero (suc n) (suc a) b p q = absurd (omega arith)
digits-lt (suc k) (suc n) (suc a) b p q = omega (
  arith,
  digits-lt k n (suc a / 2) (b / 2) (omega arith) (omega arith),
  differ-le (suc a % 2) (b % 2) (omega arith) (omega arith),
)

pub bit_xor-lt : (a b : ℕ) → a < u32_mod → b < u32_mod → bit_xor a b < u32_mod
bit_xor-lt a b p q = omega (arith, bit_xor-bitwise a b, digits-lt 32 a a b p q)

pub shift_bit-lt : (c : ℕ) → c < u32_mod → shift_bit c < u32_mod
unfolding shift_bit
shift_bit-lt c h = elim (Bool-cases (bit_and c 1 == 1)) [
  | inl e ↦ rw e (bit_xor-lt poly (c / 2) (omega arith) (omega arith))
  | inr e ↦ rw e (omega arith)
]

pub shift_bits-lt : (n c : ℕ) → c < u32_mod → shift_bits n c < u32_mod
unfolding shift_bits
shift_bits-lt zero c h = h
shift_bits-lt (suc n) c h = shift_bits-lt n (shift_bit c) (shift_bit-lt c h)

table_from-lt : (i n j : ℕ) → i + n < u32_mod → get_or (table_from i n) j 0 < u32_mod
unfolding table_from
table_from-lt i zero j h = omega arith
table_from-lt i (suc n) zero h = shift_bits-lt 8 i (omega arith)
table_from-lt i (suc n) (suc j) h = table_from-lt (i + 1) n j (omega arith)

crc_loop-lt :
    (table bytes : List ℕ) (crc : ℕ)
    → ((j : ℕ) → get_or table j 0 < u32_mod)
    → crc < u32_mod
    → crc_loop table bytes crc < u32_mod
unfolding crc_loop
crc_loop-lt table [] crc h p = p
crc_loop-lt table (b ∷ bytes) crc h p =
    crc_loop-lt table bytes _ h
      (bit_xor-lt _ (crc / 256) (h (bit_and (bit_xor crc b) 0xFF)) (omega arith))

pub crc32-lt : (words : List ℕ) → crc32 words < u32_mod
unfolding crc32 crc32_bytes crc_table
crc32-lt words =
    bit_xor-lt (crc_loop (table_from 0 256) (float_bytes words) 0xFFFFFFFF) 0xFFFFFFFF
      (crc_loop-lt (table_from 0 256) (float_bytes words) 0xFFFFFFFF
        (λ j. table_from-lt 0 256 j (omega arith)) (omega arith))
      (omega arith)
