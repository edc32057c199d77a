-- ===== src/Base/Bytes.antt =====
-- Integers as bytes in memory and in files, on the little-endian machines that the code is built for.
use caldera_sandbox.Base.{
  ℕ, zero, suc, ◌+◌, ◌*◌, ◌/◌, ◌%◌, ◌<◌, ◌≡◌, refl, ap, sym, ◌∙◌, List, [], ◌∷◌, ◌++◌, arith,
  length, Option, none, some, ◌>>=◌,
}

-- An unsigned integer in memory, lowest byte first.
unfoldable pub to_bytes : ℕ → ℕ → List ℕ
to_bytes zero v = []
to_bytes (suc n) v = v % 256 ∷ to_bytes n (v / 256)

unfoldable pub of_bytes : List ℕ → ℕ
of_bytes [] = 0
of_bytes (b ∷ bs) = b + 256 * of_bytes bs

-- 256 to the power of `n`.
abbrev pub limit : ℕ → ℕ
limit zero = 1
limit (suc n) = 256 * limit n

pub length-to_bytes : (n v : ℕ) → length (to_bytes n v) ≡ n
unfolding to_bytes
length-to_bytes zero v = refl
length-to_bytes (suc n) v = ap suc (length-to_bytes n (v / 256))

pub of_bytes-to_bytes : (n v : ℕ) → v < limit n → of_bytes (to_bytes n v) ≡ v
unfolding to_bytes of_bytes
of_bytes-to_bytes zero v h = omega arith
of_bytes-to_bytes (suc n) v h = omega (arith, of_bytes-to_bytes n (v / 256) (omega arith))

-- The first `n` values and the rest, if there are so many.
unfoldable pub split_at {ℓ} : {A : Type ℓ} → ℕ → List A → Option (List A × List A)
split_at zero s = some ([], s)
split_at (suc n) [] = none
split_at (suc n) (b ∷ s) = split_at n s >>= λ (xs, rest). some (b ∷ xs, rest)

unfoldable pub read_uint : ℕ → List ℕ → Option (ℕ × List ℕ)
unfolding split_at of_bytes
read_uint n s = split_at n s >>= λ (bs, rest). some (of_bytes bs, rest)

pub split_at-append {ℓ} :
    {A : Type ℓ} (xs ys : List A) → split_at (length xs) (xs ++ ys) ≡ some (xs, ys)
unfolding split_at
split_at-append [] ys = refl
split_at-append (x ∷ xs) ys = rw (split_at-append xs ys) refl

pub read_uint-to_bytes :
    (n v : ℕ) (s : List ℕ) → v < limit n → read_uint n (to_bytes n v ++ s) ≡ some (v, s)
unfolding read_uint
read_uint-to_bytes n v s h =
    ap (λ k. split_at k (to_bytes n v ++ s) >>= λ (bs, rest). some (of_bytes bs, rest))
      (sym (length-to_bytes n v))
    ∙ rw (split_at-append (to_bytes n v) s, of_bytes-to_bytes n v h) refl
