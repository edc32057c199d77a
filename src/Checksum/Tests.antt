-- ===== src/Checksum/Tests.antt =====
-- The checksum of four bytes, with the table and bit by bit.
use Prim.Native.Nat.{bit_xor}
use caldera_sandbox.Base.{◌≡◌, List, [], ◌∷◌, arith, ℕ}
use caldera_sandbox.Checksum.{crc32_bytes}
use caldera_sandbox.Checksum.Bitwise.{feed_bytes, crc32_bytes-feed_bytes}

abbrev four : List ℕ
four = 0 ∷ 1 ∷ 254 ∷ 255 ∷ []

crc32_bytes-feed_bytes_example : crc32_bytes four ≡ bit_xor (feed_bytes four 0xFFFFFFFF) 0xFFFFFFFF
crc32_bytes-feed_bytes_example =
    crc32_bytes-feed_bytes four (omega arith, (omega arith, (omega arith, (omega arith, tt))))
