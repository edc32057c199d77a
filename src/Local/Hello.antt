-- ===== src/Local/Hello.antt =====
-- The loop that waits for a client's first line, which both servers have. Each `read` asks for one
-- byte; times are in milliseconds, and a timeout is not negative.
use caldera_sandbox.Base.{
  ℕ, ◌+◌, Bool, true, ◌&&◌, Option, none, some, List, [], ◌∷◌, ◌++◌, ltb, ◌==◌, if◌then◌else◌,
  length,
}
use caldera_sandbox.Fifo.Pipe.{newline}

-- `silent` is a result 0 (no writer), EAGAIN or EWOULDBLOCK; `fails` is any other error, EINTR too.
pub data Read : Type 0 where
  silent fails : Read
  arrives : ℕ → Read

pub data Heard : Type 0 where
  goes_on : ℕ → List ℕ → Heard
  over : List ℕ → Heard

unfoldable pub heard : Read → ℕ → List ℕ → Heard
heard silent waited hello = goes_on (waited + 10) hello
heard fails waited hello = over hello
heard (arrives c) waited hello =
    if c == newline
    then over hello
    else (if ltb 256 (length hello + 1)
        then over (hello ++ c ∷ [])
        else goes_on waited (hello ++ c ∷ []))

unfoldable pub hello_turn : Bool → ℕ → Read → ℕ → List ℕ → Heard
unfolding heard
hello_turn running timeout r waited hello =
    if running && ltb waited timeout then heard r waited hello else over hello

-- The loop of the handshake server, which does not look at `running_`. `none` means that there are
-- too few reads.
unfoldable pub read_hello : List Read → ℕ → ℕ → List ℕ → Option (List ℕ)
unfolding hello_turn
read_hello [] timeout waited hello = if ltb waited timeout then none else some hello
read_hello (r ∷ rs) timeout waited hello = elim (hello_turn true timeout r waited hello) [
  | over h ↦ some h
  | goes_on w h ↦ read_hello rs timeout w h
]
