-- ===== src/Local/Handshake.antt =====
-- `FifoHandshakeServer`. A session says how its calls end, and whether `stop` was called before it. The
-- dynamic builder is what it returns.
use caldera_sandbox.Base.{
  ℕ, zero, suc, Bool, false, not, ◌&&◌, Option, none, some, List, [], ◌∷◌, ◌++◌, ◌>>=◌,
  if◌then◌else◌,
}
use caldera_sandbox.Base.Text.{is_nil, codes, same_text}
use caldera_sandbox.Fifo.Pipe.{Call, newline, write_line}
use caldera_sandbox.Local.Hello.{Read, read_hello}

pub record HandshakeConfig : Type 0 where
  pub timeout_ms : ℕ
  pub max_sessions : ℕ

pub record HandshakeServer : Type 0 where
  pub cfg : HandshakeConfig
  pub static_fields : List (List ℕ × List ℕ)
  pub dynamic_builder : Option (List ℕ)
  pub running : Bool
  pub client_hello : List ℕ

pub record Session : Type 0 where
  pub stopped : Bool
  pub read_opens : Bool
  pub reads : List Read
  pub write_opens : Bool
  pub writes : List Call

unfoldable pub set_static_fields : List (List ℕ × List ℕ) → HandshakeServer → HandshakeServer
set_static_fields fields s = record s { static_fields = fields }

unfoldable pub set_dynamic_json_builder : Option (List ℕ) → HandshakeServer → HandshakeServer
set_dynamic_json_builder builder s = record s { dynamic_builder = builder }

unfoldable pub set_hello_string : List ℕ → HandshakeServer → HandshakeServer
set_hello_string hello s = record s { client_hello = hello }

unfoldable pub field_lines : List (List ℕ × List ℕ) → List ℕ
field_lines [] = []
field_lines ((k, v) ∷ []) = codes "  \"" ++ (k ++ (codes "\": " ++ (v ++ newline ∷ [])))
field_lines ((k, v) ∷ next ∷ fields) =
    codes "  \""
    ++ (k ++ (codes "\": " ++ (v ++ (codes "," ++ newline ∷ field_lines (next ∷ fields)))))

unfoldable pub build_json : HandshakeServer → List ℕ
unfolding field_lines
build_json s = elim s.dynamic_builder [
  | some text ↦ text
  | none ↦ codes "{" ++ newline ∷ (field_lines s.static_fields ++ codes "}")
]

-- What a session sends.
unfoldable pub answer : HandshakeServer → Session → List ℕ → Option (List ℕ)
unfolding same_text write_line build_json
answer s session hello =
    if not (is_nil hello) && same_text hello s.client_hello && session.write_opens
    then (write_line session.writes (build_json s) >>= λ (ok, sent, rest). some sent)
    else some []

unfoldable pub run_session : HandshakeServer → Session → Option (List ℕ)
unfolding read_hello answer
run_session s session =
    read_hello session.reads s.cfg.timeout_ms 0 [] >>= λ hello. answer s session hello

-- What each session that takes place sends; `none` means that there are too few of them, or of their
-- calls.
unfoldable pub run_sessions : HandshakeServer → ℕ → List Session → Option (List (List ℕ))
unfolding run_session
run_sessions s zero sessions = some []
run_sessions s (suc left) [] = none
run_sessions s (suc left) (session ∷ sessions) =
    let rest = run_session s session >>= λ sent.
    run_sessions s left sessions >>= λ later. some (sent ∷ later) in
    if session.stopped then some [] else (if session.read_opens then rest else some [])

unfoldable pub start :
    Bool → List Session → HandshakeServer → Option (List (List ℕ) × HandshakeServer)
unfolding run_sessions
start created sessions s =
    if s.running
    then some ([], s)
    else (if created
        then (run_sessions s s.cfg.max_sessions sessions >>= λ sent.
            some (sent, record s { running = false }))
        else some ([], record s { running = false }))

unfoldable pub stop : HandshakeServer → HandshakeServer
stop s = record s { running = false }
