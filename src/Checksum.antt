-- ===== src/Checksum.antt =====
-- backend/src/common/Checksum.cpp: CRC32 (polynomial EDB88320) by a table of 256 entries.
pub mod Bitwise
pub mod Detect
pub mod Range
pub mod Tests
pub mod Xor
use Prim.Native.Nat.{bit_and, bit_xor}
use caldera_sandbox.Base.{
  ℕ, zero, suc, ◌+◌, ◌/◌, ◌%◌, ◌≡◌, refl, List, [], ◌∷◌, ◌==◌, if◌then◌else◌, get_or,
}

abbrev pub poly : ℕ
poly = 0xEDB88320

unfoldable pub shift_bit : ℕ → ℕ
shift_bit c = if bit_and c 1 == 1 then bit_xor poly (c / 2) else c / 2

-- `for (k = 0; k < 8; ++k)`, with `n` rounds left.
unfoldable pub shift_bits : ℕ → ℕ → ℕ
shift_bits zero c = c
shift_bits (suc n) c = shift_bits n (shift_bit c)

-- `table[i] … table[i + n - 1]`.
unfoldable pub table_from : ℕ → ℕ → List ℕ
table_from i zero = []
table_from i (suc n) = shift_bits 8 i ∷ table_from (i + 1) n

unfoldable pub crc_table : List ℕ
unfolding table_from shift_bits shift_bit
crc_table = table_from 0 256

unfoldable pub crc_loop : List ℕ → List ℕ → ℕ → ℕ
crc_loop table [] crc = crc
crc_loop table (b ∷ bytes) crc =
    crc_loop table bytes (bit_xor (get_or table (bit_and (bit_xor crc b) 0xFF) 0) (crc / 256))

unfoldable pub crc32_bytes : List ℕ → ℕ
unfolding crc_loop crc_table
crc32_bytes bytes = bit_xor (crc_loop crc_table bytes 0xFFFFFFFF) 0xFFFFFFFF

-- The bytes of a `float` buffer in memory, lowest byte first.
unfoldable pub float_bytes : List ℕ → List ℕ
float_bytes [] = []
float_bytes (w ∷ words) =
    w % 256 ∷ w / 256 % 256 ∷ w / 65536 % 256 ∷ w / 16777216 % 256 ∷ float_bytes words

unfoldable pub crc32 : List ℕ → ℕ
unfolding crc32_bytes float_bytes
crc32 words = crc32_bytes (float_bytes words)

-- The check value of the standard: "123456789".
check_value : crc32_bytes (49 ∷ 50 ∷ 51 ∷ 52 ∷ 53 ∷ 54 ∷ 55 ∷ 56 ∷ 57 ∷ []) ≡ 0xCBF43926
unfolding crc32_bytes
check_value = refl
