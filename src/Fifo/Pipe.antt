-- ===== src/Fifo/Pipe.antt =====
-- The manager and its two loops. What `read` and `write` do stands in a schedule; a result `none` is a
-- schedule that ends before the loop does. Logging is left out.
use caldera_sandbox.Base.{
  ℕ, Bool, true, false, not, Option, none, some, List, [], ◌∷◌, ◌++◌, ltb, ◌==◌, if◌then◌else◌,
  length, take, drop, ◌>>=◌,
}

-- '\n'.
abbrev pub newline : ℕ
newline = 10

-- How `mkfifo` ends.
pub data Made : Type 0 where
  made exists make_fails : Made

-- The state is `path_`.
unfoldable pub create : List ℕ → Bool → Made → List ℕ → Bool × List ℕ
create new recreate made path = (true, new)
create new recreate exists path = (not recreate, new)
create new recreate make_fails path = (false, new)

-- A call is interrupted (EINTR), fails, or moves bytes: a `write` at least one and at most `k + 1`, a
-- `read` one, or none at the end of the stream.
pub data Call : Type 0 where
  interrupted fails : Call
  moves : ℕ → Call

abbrev pub ends_line : List ℕ → Bool
ends_line [] = false
ends_line (c ∷ []) = c == newline
ends_line (c ∷ d ∷ cs) = ends_line (d ∷ cs)

unfoldable pub line_payload : List ℕ → List ℕ
line_payload line = if ends_line line then line else line ++ (newline ∷ [])

-- The loop of `writeLine`: the result, what went out, and the calls that are left.
unfoldable pub write_loop : List Call → List ℕ → Option (Bool × List ℕ × List Call)
write_loop calls [] = some (true, [], calls)
write_loop [] (b ∷ bytes) = none
write_loop (interrupted ∷ calls) (b ∷ bytes) = write_loop calls (b ∷ bytes)
write_loop (fails ∷ calls) (b ∷ bytes) = some (false, [], calls)
write_loop (moves k ∷ calls) (b ∷ bytes) = write_loop calls (drop k bytes) >>= λ (ok, sent, rest).
    some (ok, b ∷ (take k bytes ++ sent), rest)

unfoldable pub write_line : List Call → List ℕ → Option (Bool × List ℕ × List Call)
unfolding write_loop line_payload
write_line calls line = write_loop calls (line_payload line)

-- The loop of `readLine`, with `out` read so far: the line, and what is left of the stream.
unfoldable pub read_loop : List Call → ℕ → List ℕ → List ℕ → Option (List ℕ × List ℕ)
read_loop [] max_len out stream = if ltb (length out) max_len then none else some (out, stream)
read_loop (interrupted ∷ calls) max_len out stream =
    let more = read_loop calls max_len out stream in
    if ltb (length out) max_len then more else some (out, stream)
read_loop (fails ∷ calls) max_len out stream =
    if ltb (length out) max_len then some ([], stream) else some (out, stream)
read_loop (moves k ∷ calls) max_len out [] = some (out, [])
read_loop (moves k ∷ calls) max_len out (c ∷ stream) =
    let more = read_loop calls max_len (out ++ (c ∷ [])) stream in
    if ltb (length out) max_len
    then (if c == newline then some (out, stream) else more)
    else some (out, c ∷ stream)

unfoldable pub read_line : List Call → ℕ → List ℕ → Option (List ℕ × List ℕ)
unfolding read_loop
read_line calls max_len stream = read_loop calls max_len [] stream
