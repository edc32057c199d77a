-- ===== src/Socket/Stream.antt =====
-- The loops around `send` and `recv`. What a call does stands in a schedule: it fails, or it moves some
-- bytes, at least one and at most what it was given (`moves k`: at most `k + 1`). A result `none` is a
-- schedule that ends before the loop does.
use caldera_sandbox.Base.{
  ℕ, zero, suc, ◌-◌, min, Bool, true, false, Option, none, some, List, [], ◌∷◌, ◌++◌, length, take,
  drop, ◌>>=◌,
}

pub data Call : Type 0 where
  fails : Call
  moves : ℕ → Call

-- `writeAll`: the result, what went out, and the calls that are left.
unfoldable pub write_all : List Call → List ℕ → Option (Bool × List ℕ × List Call)
write_all calls [] = some (true, [], calls)
write_all [] (b ∷ bytes) = none
write_all (fails ∷ calls) (b ∷ bytes) = some (false, [], calls)
write_all (moves k ∷ calls) (b ∷ bytes) = write_all calls (drop k bytes) >>= λ (ok, sent, rest).
    some (ok, b ∷ (take k bytes ++ sent), rest)

-- `readExact` of `left` bytes from what the peer sent; at its end `recv` returns 0. The result, what
-- came in, and the calls and the bytes that are left.
unfoldable pub read_exact : List Call → ℕ → List ℕ → Option (Bool × List ℕ × List Call × List ℕ)
read_exact calls zero stream = some (true, [], calls, stream)
read_exact [] (suc left) stream = none
read_exact (fails ∷ calls) (suc left) stream = some (false, [], calls, stream)
read_exact (moves k ∷ calls) (suc left) [] = some (false, [], calls, [])
read_exact (moves k ∷ calls) (suc left) (b ∷ stream) =
    let got = take (min k left) stream in
    read_exact calls (left - length got) (drop (min k left) stream) >>= λ (ok, more, rest, stream').
    some (ok, b ∷ (got ++ more), rest, stream')
