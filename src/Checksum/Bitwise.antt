-- ===== src/Checksum/Bitwise.antt =====
-- The table against a register that takes in one bit at a time.
use Prim.Native.Nat.{bit_and, bit_xor}
use caldera_sandbox.Base.{
  ℕ, zero, suc, ◌+◌, ◌*◌, ◌/◌, ◌%◌, ◌<◌, ◌≡◌, refl, sym, ap, ◌∙◌, ◌⊎◌, inl, inr, List, [], ◌∷◌, All,
  ◌==◌, if◌then◌else◌, arith, get_or,
}
use caldera_sandbox.Checksum.{
  poly, shift_bit, shift_bits, table_from, crc_table, crc_loop, crc32_bytes,
}
use caldera_sandbox.Checksum.Xor.{
  shifted, halves, half-bit_xor, low-bit_xor, bit_xor_assoc, bit_xor-zero, halves-bit_xor,
  bit_xor-shifted, bit_and-one, bit_and_byte,
}

-- The register after one bit: the polynomial is added when the bit is not the lowest one of the register.
abbrev pub feed : ℕ → ℕ → ℕ
feed bit crc = if crc % 2 == bit then crc / 2 else bit_xor poly (crc / 2)

-- The `n` lowest bits of a number, lowest first.
unfoldable pub feed_bits : ℕ → ℕ → ℕ → ℕ
feed_bits zero b crc = crc
feed_bits (suc n) b crc = feed_bits n (b / 2) (feed (b % 2) crc)

unfoldable pub feed_bytes : List ℕ → ℕ → ℕ
unfolding feed_bits
feed_bytes [] crc = crc
feed_bytes (b ∷ bytes) crc = feed_bytes bytes (feed_bits 8 b crc)

pub odd : (n : ℕ) → (n % 2 ≡ 0) ⊎ (n % 2 ≡ 1)
odd n = grind arith

-- What a step does is told by the lowest bit.
pub shift_bit-even : (c : ℕ) → c % 2 ≡ 0 → shift_bit c ≡ c / 2
unfolding shift_bit
shift_bit-even c e = let masked : bit_and c 1 ≡ 0 = bit_and-one c ∙ e in rw masked refl

pub shift_bit-odd : (c : ℕ) → c % 2 ≡ 1 → shift_bit c ≡ bit_xor poly (c / 2)
unfolding shift_bit
shift_bit-odd c e = let masked : bit_and c 1 ≡ 1 = bit_and-one c ∙ e in rw masked refl

-- A step with `b` in the register is a step that is fed the lowest bit of `b`, with the rest of it after.
pub shift_bit-feed : (crc b : ℕ) → shift_bit (bit_xor crc b) ≡ bit_xor (feed (b % 2) crc) (b / 2)
shift_bit-feed crc b =
    let low = low-bit_xor crc b in
    let half = half-bit_xor crc b in
    elim (odd crc) [
      | inl x ↦ elim (odd b) [
        | inl y ↦ rw (x, y) (shift_bit-even (bit_xor crc b) (low ∙ rw (x, y) refl) ∙ half)
        | inr y ↦
            rw (x, y)
              (shift_bit-odd (bit_xor crc b) (low ∙ rw (x, y) refl)
                ∙ ap (bit_xor poly) half
                ∙ sym (bit_xor_assoc poly (crc / 2) (b / 2)))
      ]
      | inr x ↦ elim (odd b) [
        | inl y ↦
            rw (x, y)
              (shift_bit-odd (bit_xor crc b) (low ∙ rw (x, y) refl)
                ∙ ap (bit_xor poly) half
                ∙ sym (bit_xor_assoc poly (crc / 2) (b / 2)))
        | inr y ↦ rw (x, y) (shift_bit-even (bit_xor crc b) (low ∙ rw (x, y) refl) ∙ half)
      ]
    ]

pub feed_bits-shift_bits :
    (n b crc : ℕ) → halves n b ≡ 0 → shift_bits n (bit_xor crc b) ≡ feed_bits n b crc
unfolding shift_bits feed_bits
feed_bits-shift_bits zero b crc h = ap (bit_xor crc) h ∙ bit_xor-zero crc
feed_bits-shift_bits (suc n) b crc h =
    ap (shift_bits n) (shift_bit-feed crc b) ∙ feed_bits-shift_bits n (b / 2) (feed (b % 2) crc) h

shift_bit-double : (y s : ℕ) → shift_bit (bit_xor y (2 * s)) ≡ bit_xor (shift_bit y) s
shift_bit-double y s =
    let low : 2 * s % 2 ≡ 0 = omega arith in
    let half : 2 * s / 2 ≡ s = omega arith in
    let alone : shift_bit y ≡ feed 0 y =
      ap shift_bit (sym (bit_xor-zero y)) ∙ shift_bit-feed y 0 ∙ bit_xor-zero (feed 0 y) in
    shift_bit-feed y (2 * s)
    ∙ ap (λ l. bit_xor (feed l y) (2 * s / 2)) low
    ∙ ap (bit_xor (feed 0 y)) half
    ∙ ap (λ c. bit_xor c s) (sym alone)

-- What stands above the bits that leave the register stays.
pub shift_bits-shifted :
    (k y q : ℕ) → shift_bits k (bit_xor y (shifted k q)) ≡ bit_xor (shift_bits k y) q
unfolding shift_bits
shift_bits-shifted zero y q = refl
shift_bits-shifted (suc k) y q =
    ap (shift_bits k) (shift_bit-double y (shifted k q)) ∙ shift_bits-shifted k (shift_bit y) q

table_from-get : (i n j : ℕ) → j < n → get_or (table_from i n) j 0 ≡ shift_bits 8 (i + j)
unfolding table_from
table_from-get i zero j h = absurd (omega arith)
table_from-get i (suc n) zero h = ap (shift_bits 8) {x = i} (omega arith)
table_from-get i (suc n) (suc j) h =
    table_from-get (i + 1) n j (omega arith) ∙ ap (shift_bits 8) {x = i + 1 + j} (omega arith)

-- The table's entry for the lowest byte, and the bytes above it, make eight steps.
pub table_step : (x : ℕ) → bit_xor (get_or crc_table (x % 256) 0) (x / 256) ≡ shift_bits 8 x
unfolding crc_table
table_step x =
    let parts : x ≡ bit_xor (x % 256) (shifted 8 (x / 256)) =
      omega (arith, bit_xor-shifted 8 (x % 256) (x / 256) (omega arith)) in
    ap (λ e. bit_xor e (x / 256))
      (table_from-get 0 256 (x % 256) (omega arith)
        ∙ ap (shift_bits 8) {x = 0 + x % 256} (omega arith))
    ∙ sym (shift_bits-shifted 8 (x % 256) (x / 256))
    ∙ ap (shift_bits 8) (sym parts)

byte_step :
    (crc b : ℕ)
    → b < 256
    → bit_xor (get_or crc_table (bit_and (bit_xor crc b) 0xFF) 0) (crc / 256) ≡ feed_bits 8 b crc
byte_step crc b h =
    let x = bit_xor crc b in
    let gone : halves 8 b ≡ 0 = omega arith in
    let above : x / 256 ≡ crc / 256 = omega (
      arith,
      halves-bit_xor 8 crc b,
      ap (bit_xor (halves 8 crc)) gone,
      bit_xor-zero (halves 8 crc),
    ) in
    ap (λ j. bit_xor (get_or crc_table j 0) (crc / 256)) (bit_and_byte x)
    ∙ ap (bit_xor (get_or crc_table (x % 256) 0)) (sym above)
    ∙ table_step x
    ∙ feed_bits-shift_bits 8 b crc gone

crc_loop-feed_bytes :
    (bytes : List ℕ) (crc : ℕ)
    → All (λ b. b < 256) bytes
    → crc_loop crc_table bytes crc ≡ feed_bytes bytes crc
unfolding crc_loop feed_bytes
crc_loop-feed_bytes [] crc h = refl
crc_loop-feed_bytes (b ∷ bytes) crc (one, h) =
    ap (crc_loop crc_table bytes) (byte_step crc b one)
    ∙ crc_loop-feed_bytes bytes (feed_bits 8 b crc) h

-- The checksum of bytes, each below 256, by the table is that of a register which starts with 32 ones,
-- takes in the bits of each byte one by one, lowest first, and is inverted at the end.
pub crc32_bytes-feed_bytes :
    (bytes : List ℕ)
    → All (λ b. b < 256) bytes
    → crc32_bytes bytes ≡ bit_xor (feed_bytes bytes 0xFFFFFFFF) 0xFFFFFFFF
unfolding crc32_bytes
crc32_bytes-feed_bytes bytes h =
    ap (λ c. bit_xor c 0xFFFFFFFF) (crc_loop-feed_bytes bytes 0xFFFFFFFF h)
