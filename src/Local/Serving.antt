-- ===== src/Local/Serving.antt =====
-- The heartbeat loop of `LocalTransportServer`, and the steps of the server: calls of its owner, and turns
-- of its thread.
use caldera_sandbox.Base.{
  ℕ, ◌*◌, ◌≡◌, Bool, true, false, ◌&&◌, ◌||◌, Option, none, some, List, [], ◌∷◌, ◌++◌, ltb, leb,
  ◌==◌, if◌then◌else◌, length, take,
}
use caldera_sandbox.Base.Words.{sub64}
use caldera_sandbox.Base.Text.{codes, has_text}
use caldera_sandbox.Fifo.Pipe.{Call, newline, line_payload}
use caldera_sandbox.Local.Hello.{Read}
use caldera_sandbox.Local.Server.{
  Server, opening, waiting, replying, reopening, serving, returned, start, stop_running, join,
  open_pipes, wait_hello, reply, reopen,
}

abbrev pub is_empty : List ℕ → Bool
is_empty [] = true
is_empty (c ∷ cs) = false

-- A complete line; `now` is what the clock reads.
unfoldable pub take_line : ℕ → List ℕ → Server → Server
unfolding has_text
take_line now line s =
    if is_empty line
    then s
    else (if has_text (codes "heartbeat") line
        then record s {
          last_heartbeat_ns = now;
          last_log_heartbeat_ns =
              if ltb (s.cfg.heartbeat_log_throttle_ms * 1_000_000)
                (sub64 now s.last_log_heartbeat_ns)
              then now
              else s.last_log_heartbeat_ns;
        }
        else (if has_text (codes "telemetry") line
            then record s { last_heartbeat_ns = now }
            else s))

-- A byte comes with what the clock reads if the byte ends a line.
unfoldable pub take_byte : ℕ × ℕ → List ℕ × Server → List ℕ × Server
unfolding take_line
take_byte (c, now) (line, s) =
    if c == newline
    then ([], take_line now line s)
    else (if ltb (length line) s.cfg.max_json_field_len then line ++ c ∷ [] else line, s)

unfoldable pub take_bytes : List (ℕ × ℕ) → List ℕ × Server → List ℕ × Server
unfolding take_byte
take_bytes [] r = r
take_bytes (b ∷ bs) r = take_bytes bs (take_byte b r)

-- How the `read` of the loop ends; `silent` is 0, EAGAIN, EWOULDBLOCK or EINTR.
pub data Input : Type 0 where
  silent fails : Input
  arrive : List (ℕ × ℕ) → Input

pub data Wrote : Type 0 where
  broken_pipe write_fails : Wrote
  wrote : ℕ → Wrote

-- What a turn meets when it emits statistics: the clock, the provider's answer if there is a
-- provider, and the end of `write`.
pub record Stats : Type 0 where
  pub now : ℕ
  pub provider : Option (List ℕ)
  pub end : Wrote

unfoldable pub write_stats : List ℕ → Wrote → Server → Server
unfolding line_payload
write_stats text broken_pipe s = record s { wfd_s2c = false }
write_stats text write_fails s = s
write_stats text (wrote n) s = record s { s2c = s.s2c ++ take n (line_payload text) }

unfoldable pub provide : Stats → Server → Server
unfolding write_stats
provide st s = elim st.provider [
  | none ↦ s
  | some text ↦ if is_empty text then s else write_stats text st.end s
]

unfoldable pub emit_stats : Stats → Server → Server
unfolding provide
emit_stats st s =
    if ltb 0 s.cfg.server_stats_interval_ms && s.wfd_s2c
    then (if (s.last_stats_emit_ns == 0)
          || leb (s.cfg.server_stats_interval_ms * 1_000_000) (sub64 st.now s.last_stats_emit_ns)
        then provide st (record s { last_stats_emit_ns = st.now })
        else s)
    else s

-- The end of the thread after its loop.
unfoldable pub finish : Server → Server
finish s = record s { wfd_s2c = false; pipes = false; worker = returned }

unfoldable pub receive : Input → Stats → List ℕ → Server → Server
unfolding take_bytes emit_stats finish
receive silent st line s = emit_stats st s
receive fails st line s = finish s
receive (arrive bytes) st line s =
    let (line', s') = take_bytes bytes (line, s) in
    emit_stats st (record s' { worker = serving line' })

unfoldable pub serve : Input → Stats → List ℕ → Server → Server
unfolding receive
serve input st line s = let t = receive input st line s in if s.running then t else finish s

-- One turn of the thread.
pub data Turn : Server → Server → Type 0 where
  opens :
      (made_s2c made_c2s b : Bool) (s : Server)
      → s.worker ≡ opening
      → Turn s (open_pipes made_s2c made_c2s b s)
  hears :
      (r : Read) (w : ℕ) (h : List ℕ) (s : Server)
      → s.worker ≡ waiting w h
      → Turn s (wait_hello r w h s)
  replies :
      (b : Bool) (calls : List Call) (ms : List ℕ) (s t : Server)
      → s.worker ≡ replying
      → reply b calls ms s ≡ some t
      → Turn s t
  reopens : (b : Bool) (s : Server) → s.worker ≡ reopening → Turn s (reopen b s)
  serves :
      (i : Input) (st : Stats) (line : List ℕ) (s : Server)
      → s.worker ≡ serving line
      → Turn s (serve i st line s)

-- `stop` is `stops` and then `joins`; its caller does nothing in between, so `running` stays false.
pub data Step : Server → Server → Type 0 where
  starts : (s t : Server) → start s ≡ some t → Step s t
  stops : (s : Server) → Step s (stop_running s)
  joins : (s : Server) → s.running ≡ false → s.worker ≡ returned → Step s (join s)
  turns : {s t : Server} → Turn s t → Step s t

-- From `s`, any number of steps.
pub data Reach (s : Server) : Server → Type 0 where
  here : Reach s s
  next : {t u : Server} → Reach s t → Step t u → Reach s u
