-- ===== src/Checksum/Detect.antt =====
-- A single value that is changed changes the checksum.
use Prim.Native.Nat.{bit_xor}
use caldera_sandbox.Base.{
  ℕ, zero, suc, ◌+◌, ◌/◌, ◌%◌, ◌<◌, ◌≡◌, ◌≢◌, refl, sym, ap, ◌∙◌, inl, inr, List, [], ◌∷◌, ◌++◌,
  All, arith,
}
use caldera_sandbox.Base.Words.{u32_mod}
use caldera_sandbox.Checksum.{poly, shift_bit, shift_bits, crc32, float_bytes}
use caldera_sandbox.Checksum.Xor.{
  shifted, halves, halves-none, halves-bit_xor, bit_xor-zero, cancel-left, cancel-right,
}
use caldera_sandbox.Checksum.Range.{bit_xor-lt, shift_bit-lt}
use caldera_sandbox.Checksum.Bitwise.{
  feed, feed_bits, feed_bytes, odd, shift_bit-even, shift_bit-odd, shift_bit-feed,
  feed_bits-shift_bits, crc32_bytes-feed_bytes,
}

-- The highest bit of the polynomial tells an odd register from an even one.
even-odd : (c d : ℕ) → c < u32_mod → d < u32_mod → c / 2 ≢ bit_xor poly (d / 2)
even-odd c d p q e =
    let high : halves 31 (bit_xor poly (d / 2)) ≡ 1 =
      halves-bit_xor 31 poly (d / 2)
      ∙ ap (bit_xor 1) (halves-none 31 (d / 2) (omega arith))
      ∙ bit_xor-zero 1 in
    omega (arith, high, ap (halves 31) e, halves-none 31 (c / 2) (omega arith))

shift_bit-inj : (c d : ℕ) → c < u32_mod → d < u32_mod → shift_bit c ≡ shift_bit d → c ≡ d
shift_bit-inj c d p q e = elim (odd c) [
  | inl x ↦ elim (odd d) [
    | inl y ↦ omega (arith, shift_bit-even c x, shift_bit-even d y)
    | inr y ↦ absurd (even-odd c d p q (sym (shift_bit-even c x) ∙ e ∙ shift_bit-odd d y))
  ]
  | inr x ↦ elim (odd d) [
    | inl y ↦ absurd (even-odd d c q p (sym (shift_bit-even d y) ∙ sym e ∙ shift_bit-odd c x))
    | inr y ↦
        omega (
          arith,
          cancel-left (c / 2) (d / 2) poly (sym (shift_bit-odd c x) ∙ e ∙ shift_bit-odd d y),
        )
  ]
]

shift_bits-inj : (n c d : ℕ) → c < u32_mod → d < u32_mod → shift_bits n c ≡ shift_bits n d → c ≡ d
unfolding shift_bits
shift_bits-inj zero c d p q e = e
shift_bits-inj (suc n) c d p q e =
    shift_bit-inj c d p q
      (shift_bits-inj n (shift_bit c) (shift_bit d) (shift_bit-lt c p) (shift_bit-lt d q) e)

-- A bit that is fed is a step with the bit in the register.
feed-shift_bit : (b c : ℕ) → shift_bit (bit_xor c (b % 2)) ≡ feed (b % 2) c
feed-shift_bit b c =
    let same : b % 2 % 2 ≡ b % 2 = omega arith in
    let gone : b % 2 / 2 ≡ 0 = omega arith in
    shift_bit-feed c (b % 2)
    ∙ ap (λ x. bit_xor (feed x c) (b % 2 / 2)) same
    ∙ ap (bit_xor (feed (b % 2) c)) gone
    ∙ bit_xor-zero (feed (b % 2) c)

feed-lt : (b c : ℕ) → c < u32_mod → feed (b % 2) c < u32_mod
feed-lt b c p = omega (
  arith,
  feed-shift_bit b c,
  shift_bit-lt (bit_xor c (b % 2)) (bit_xor-lt c (b % 2) p (omega arith)),
)

feed_bits-lt : (n b c : ℕ) → c < u32_mod → feed_bits n b c < u32_mod
unfolding feed_bits
feed_bits-lt zero b c p = p
feed_bits-lt (suc n) b c p = feed_bits-lt n (b / 2) (feed (b % 2) c) (feed-lt b c p)

feed_bits-inj :
    (n b c d : ℕ) → c < u32_mod → d < u32_mod → feed_bits n b c ≡ feed_bits n b d → c ≡ d
unfolding feed_bits
feed_bits-inj zero b c d p q e = e
feed_bits-inj (suc n) b c d p q e =
    let next =
      feed_bits-inj n (b / 2) (feed (b % 2) c) (feed (b % 2) d) (feed-lt b c p) (feed-lt b d q) e in
    cancel-right c d (b % 2) (
      shift_bit-inj (bit_xor c (b % 2)) (bit_xor d (b % 2)) (bit_xor-lt c (b % 2) p (omega arith))
        (bit_xor-lt d (b % 2) q (omega arith))
        (feed-shift_bit b c ∙ next ∙ sym (feed-shift_bit b d)))

feed_bytes-inj :
    (bytes : List ℕ) (c d : ℕ)
    → c < u32_mod
    → d < u32_mod
    → feed_bytes bytes c ≡ feed_bytes bytes d
    → c ≡ d
unfolding feed_bytes
feed_bytes-inj [] c d p q e = e
feed_bytes-inj (b ∷ bytes) c d p q e = feed_bits-inj 8 b c d p q (
    feed_bytes-inj bytes (feed_bits 8 b c) (feed_bits 8 b d) (feed_bits-lt 8 b c p)
      (feed_bits-lt 8 b d q) e)

-- Only the lowest bits are fed.
feed_bits-low : (n a b q c : ℕ) → a ≡ b + shifted n q → feed_bits n a c ≡ feed_bits n b c
unfolding feed_bits
feed_bits-low zero a b q c e = refl
feed_bits-low (suc n) a b q c e =
    let low : a % 2 ≡ b % 2 = omega arith in
    ap (λ x. feed_bits n (a / 2) (feed x c)) low
    ∙ feed_bits-low n (a / 2) (b / 2) q (feed (b % 2) c) (omega arith)

feed_bits-byte : (a c : ℕ) → feed_bits 8 (a % 256) c ≡ feed_bits 8 a c
feed_bits-byte a c = sym (feed_bits-low 8 a (a % 256) (a / 256) c (omega arith))

feed_bits-more : (k n a c : ℕ) → feed_bits (k + n) a c ≡ feed_bits n (halves k a) (feed_bits k a c)
unfolding feed_bits
feed_bits-more zero n a c = ap (λ m. feed_bits m a c) {x = 0 + n} {y = n} (omega arith)
feed_bits-more (suc k) n a c =
    ap (λ m. feed_bits m a c) {x = suc k + n} {y = suc (k + n)} (omega arith)
    ∙ feed_bits-more k n (a / 2) (feed (a % 2) c)

bytes_above : (n a c : ℕ) → feed_bits (8 + n) a c ≡ feed_bits n (a / 256) (feed_bits 8 a c)
bytes_above n a c =
    let high : halves 8 a ≡ a / 256 = omega arith in
    feed_bits-more 8 n a c ∙ ap (λ x. feed_bits n x (feed_bits 8 a c)) high

-- The four bytes of a value, lowest first, are its 32 bits.
feed_bytes-word :
    (w c : ℕ) (words : List ℕ)
    → feed_bytes (float_bytes (w ∷ words)) c ≡ feed_bytes (float_bytes words) (feed_bits 32 w c)
unfolding feed_bytes float_bytes
feed_bytes-word w c words =
    let b0 = feed_bits 8 w c in
    let b1 = feed_bits 8 (w / 256) b0 in
    let b2 = feed_bits 8 (w / 65536) b1 in
    let second : w / 256 / 256 ≡ w / 65536 = omega arith in
    let third : w / 65536 / 256 ≡ w / 16777216 = omega arith in
    let whole : feed_bits 32 w c ≡ feed_bits 8 (w / 16777216) b2 =
      bytes_above 24 w c
      ∙ bytes_above 16 (w / 256) b0
      ∙ ap (λ x. feed_bits 16 x b1) second
      ∙ bytes_above 8 (w / 65536) b1
      ∙ ap (λ x. feed_bits 8 x b2) third in
    let top = w / 16777216 % 256 in
    let mid = w / 65536 % 256 in
    ap (feed_bytes (float_bytes words)) (
      ap (λ x. feed_bits 8 top (feed_bits 8 mid (feed_bits 8 (w / 256 % 256) x)))
        (feed_bits-byte w c)
      ∙ ap (λ x. feed_bits 8 top (feed_bits 8 mid x)) (feed_bits-byte (w / 256) b0)
      ∙ ap (feed_bits 8 top) (feed_bits-byte (w / 65536) b1)
      ∙ feed_bits-byte (w / 16777216) b2
      ∙ sym whole)

feed_bits-inj_word :
    (v w c : ℕ)
    → v < u32_mod
    → w < u32_mod
    → c < u32_mod
    → feed_bits 32 v c ≡ feed_bits 32 w c
    → v ≡ w
feed_bits-inj_word v w c p q r e = cancel-left v w c (
    shift_bits-inj 32 (bit_xor c v) (bit_xor c w) (bit_xor-lt c v r p) (bit_xor-lt c w r q) (
      feed_bits-shift_bits 32 v c (halves-none 32 v p)
      ∙ e
      ∙ sym (feed_bits-shift_bits 32 w c (halves-none 32 w q))))

feed_bytes-inj_word :
    (xs ys : List ℕ) (v w c : ℕ)
    → v < u32_mod
    → w < u32_mod
    → c < u32_mod
    → feed_bytes (float_bytes (xs ++ v ∷ ys)) c ≡ feed_bytes (float_bytes (xs ++ w ∷ ys)) c
    → v ≡ w
feed_bytes-inj_word [] ys v w c p q r e = feed_bits-inj_word v w c p q r (
    feed_bytes-inj (float_bytes ys) (feed_bits 32 v c) (feed_bits 32 w c) (feed_bits-lt 32 v c r)
      (feed_bits-lt 32 w c r) (sym (feed_bytes-word v c ys) ∙ e ∙ feed_bytes-word w c ys))
feed_bytes-inj_word (x ∷ xs) ys v w c p q r e =
    feed_bytes-inj_word xs ys v w (feed_bits 32 x c) p q (feed_bits-lt 32 x c r)
      (sym (feed_bytes-word x c (xs ++ v ∷ ys)) ∙ e ∙ feed_bytes-word x c (xs ++ w ∷ ys))

float_bytes-All : (words : List ℕ) → All (λ b. b < 256) (float_bytes words)
unfolding float_bytes
float_bytes-All [] = tt
float_bytes-All (w ∷ words) =
    (omega arith, (omega arith, (omega arith, (omega arith, float_bytes-All words))))

crc32-feed_bytes :
    (words : List ℕ) → crc32 words ≡ bit_xor (feed_bytes (float_bytes words) 0xFFFFFFFF) 0xFFFFFFFF
unfolding crc32
crc32-feed_bytes words = crc32_bytes-feed_bytes (float_bytes words) (float_bytes-All words)

-- Two buffers of floats that differ in one value, by its 32-bit pattern, have different checksums.
pub crc32-changed :
    (xs ys : List ℕ) (v w : ℕ)
    → v < u32_mod
    → w < u32_mod
    → v ≢ w
    → crc32 (xs ++ v ∷ ys) ≢ crc32 (xs ++ w ∷ ys)
crc32-changed xs ys v w p q differs e = differs (
    feed_bytes-inj_word xs ys v w 0xFFFFFFFF p q (omega arith) (
      cancel-right (feed_bytes (float_bytes (xs ++ v ∷ ys)) 0xFFFFFFFF)
        (feed_bytes (float_bytes (xs ++ w ∷ ys)) 0xFFFFFFFF) 0xFFFFFFFF
        (sym (crc32-feed_bytes (xs ++ v ∷ ys)) ∙ e ∙ crc32-feed_bytes (xs ++ w ∷ ys))))
