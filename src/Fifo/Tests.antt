-- ===== src/Fifo/Tests.antt =====
-- A short line through the pipe.
use caldera_sandbox.Base.{ℕ, ◌≡◌, true, some, List, [], ◌∷◌, ◌++◌, arith}
use caldera_sandbox.Fifo.Pipe.{Call, interrupted, moves, write_line, read_line}
use caldera_sandbox.Fifo.Lines.{write_line-read_line}

abbrev writes : List Call
writes = moves 0 ∷ interrupted ∷ moves 5 ∷ moves 0 ∷ []

abbrev reads : List Call
reads = interrupted ∷ moves 0 ∷ moves 0 ∷ interrupted ∷ moves 0 ∷ []

write_line-read_line_example :
    (sent : List ℕ) × (rest : List Call) × (write_line writes (104 ∷ 105 ∷ [])
      ≡ some (true, sent, rest))
    × (read_line reads 64 (sent ++ (7 ∷ [])) ≡ some (104 ∷ 105 ∷ [], 7 ∷ []))
write_line-read_line_example =
    write_line-read_line writes reads 64 (104 ∷ 105 ∷ []) (7 ∷ []) tt tt
      ((λ e. omega (arith, e)), ((λ e. omega (arith, e)), tt)) (omega arith)
