-- ===== src/Fifo/Lines.antt =====
-- A line that is written is the line that is read.
use caldera_sandbox.Base.{
  ℕ, zero, suc, ◌+◌, ◌≤◌, ◌<◌, ◌≡◌, ◌≢◌, refl, ap, sym, ◌∙◌, true, false, some, List, [], ◌∷◌, ◌++◌,
  arith, length, drop, All, length-append, length-drop, take-append-drop, append_assoc, append-nil,
  lt→ltb, Bool-cases, inl, inr, ◌==◌,
}
use caldera_sandbox.Fifo.Pipe.{
  newline, Call, interrupted, fails, moves, ends_line, line_payload, write_loop, write_line,
  read_loop, read_line,
}

-- No call fails, and `n` at least of them move bytes.
abbrev pub IsEnough : ℕ → List Call → Type 0
IsEnough zero [] = Unit
IsEnough (suc n) [] = ⊥
IsEnough n (interrupted ∷ calls) = IsEnough n calls
IsEnough n (fails ∷ calls) = ⊥
IsEnough zero (moves k ∷ calls) = IsEnough zero calls
IsEnough (suc n) (moves k ∷ calls) = IsEnough n calls

less-IsEnough : (n : ℕ) (calls : List Call) → IsEnough (suc n) calls → IsEnough n calls
less-IsEnough n [] h = elim h [ ]
less-IsEnough zero (interrupted ∷ calls) h = less-IsEnough zero calls h
less-IsEnough (suc n) (interrupted ∷ calls) h = less-IsEnough (suc n) calls h
less-IsEnough n (fails ∷ calls) h = elim h [ ]
less-IsEnough zero (moves k ∷ calls) h = h
less-IsEnough (suc n) (moves k ∷ calls) h = less-IsEnough n calls h

le-IsEnough : (m n : ℕ) (calls : List Call) → m ≤ n → IsEnough n calls → IsEnough m calls
le-IsEnough zero zero calls le h = h
le-IsEnough (suc m) zero calls le h = absurd (omega arith)
le-IsEnough m (suc n) calls le h = elim (Bool-cases (m == suc n)) [
  | inl e ↦ (let same : m ≡ suc n = ground arith in rw same h)
  | inr e ↦ le-IsEnough m n calls (ground arith) (less-IsEnough n calls h)
]

-- Everything goes out.
pub write_loop-IsEnough :
    (calls : List Call) (bytes : List ℕ)
    → IsEnough (length bytes) calls
    → (rest : List Call) × (write_loop calls bytes ≡ some (true, bytes, rest))
unfolding write_loop
write_loop-IsEnough calls [] h = (calls, refl)
write_loop-IsEnough [] (b ∷ bytes) h = elim h [ ]
write_loop-IsEnough (interrupted ∷ calls) (b ∷ bytes) h = write_loop-IsEnough calls (b ∷ bytes) h
write_loop-IsEnough (fails ∷ calls) (b ∷ bytes) h = elim h [ ]
write_loop-IsEnough (moves k ∷ calls) (b ∷ bytes) h =
    let (rest, ran) = write_loop-IsEnough calls (drop k bytes) (
      le-IsEnough (length (drop k bytes)) (length bytes) calls (omega (arith, length-drop k bytes))
        h) in
    (rest, rw (ran, take-append-drop k bytes) refl)

-- The line up to its newline is read after `out`.
read_loop-IsEnough :
    (calls : List Call) (max_len : ℕ) (out line later : List ℕ)
    → IsEnough (suc (length line)) calls
    → All (λ c. c ≢ newline) line
    → length out + length line < max_len
    → read_loop calls max_len out (line ++ (newline ∷ later)) ≡ some (out ++ line, later)
unfolding read_loop
read_loop-IsEnough [] max_len out line later h plain short = elim h [ ]
read_loop-IsEnough (interrupted ∷ calls) max_len out line later h plain short =
    rw (lt→ltb (length out) max_len (omega arith))
      (read_loop-IsEnough calls max_len out line later h plain short)
read_loop-IsEnough (fails ∷ calls) max_len out line later h plain short = elim h [ ]
read_loop-IsEnough (moves k ∷ calls) max_len out [] later h plain short =
    rw (lt→ltb (length out) max_len (omega arith))
      (ap (λ o. some (o, later)) (sym (append-nil out)))
read_loop-IsEnough (moves k ∷ calls) max_len out (c ∷ line) later h (other, plain) short =
    let is_plain : (c == newline) ≡ false = ground (arith, other) in
    rw (lt→ltb (length out) max_len (omega arith), is_plain)
      (read_loop-IsEnough calls max_len (out ++ (c ∷ [])) line later h plain
          (omega (arith, length-append out (c ∷ [])))
        ∙ ap (λ o. some (o, later)) (append_assoc out (c ∷ []) line))

plain-ends_line : (line : List ℕ) → All (λ c. c ≢ newline) line → ends_line line ≡ false
plain-ends_line [] plain = refl
plain-ends_line (c ∷ []) (other, plain) = ground (arith, other)
plain-ends_line (c ∷ d ∷ cs) (other, plain) = plain-ends_line (d ∷ cs) plain

-- A line without a newline that is shorter than the reader's limit is written whole, with a newline,
-- and read back; the reader is left after it. No call fails on either side, any may be interrupted,
-- and there is one that moves bytes for each byte.
pub write_line-read_line :
    (writes reads : List Call) (max_len : ℕ) (line later : List ℕ)
    → IsEnough (suc (length line)) writes
    → IsEnough (suc (length line)) reads
    → All (λ c. c ≢ newline) line
    → length line < max_len
    → (sent : List ℕ) × (rest : List Call) × (write_line writes line ≡ some (true, sent, rest))
      × (read_line reads max_len (sent ++ later) ≡ some (line, later))
unfolding write_line line_payload read_line
write_line-read_line writes reads max_len line later enough enough' plain short =
    let payload = line ++ (newline ∷ []) in
    let size : length payload ≡ suc (length line) =
      omega (arith, length-append line (newline ∷ [])) in
    let (rest, ran) = write_loop-IsEnough writes payload (rw size enough) in
    (
      payload,
      rest,
      rw (plain-ends_line line plain) ran,
      rw (append_assoc line (newline ∷ []) later)
          (read_loop-IsEnough reads max_len [] line later enough' plain (omega arith)),
    )
