-- ===== src/Local/Answers.antt =====
-- Each client of `FifoHandshakeServer` gets the response just when its line is the expected one, and is not
-- empty.
use caldera_sandbox.Base.{
  ℕ, ◌+◌, ◌*◌, ◌≤◌, ◌<◌, ◌≡◌, ◌≢◌, refl, sym, true, false, Option, some, List, [], ◌∷◌, ◌++◌, map,
  arith, length, replicate, All, not, ◌&&◌, if◌then◌else◌, Bool-cases, inl, inr, ◌>>=◌,
}
use mathlib.Core.Path.{subst}
use caldera_sandbox.Base.Text.{is_nil, same_text}
use caldera_sandbox.Fifo.Pipe.{Call, newline, line_payload, write_line}
use caldera_sandbox.Fifo.Lines.{IsEnough, write_loop-IsEnough}
use caldera_sandbox.Local.Hello.{Read, silent, arrives}
use caldera_sandbox.Local.Handshake.{
  HandshakeServer, Session, build_json, answer, run_session, run_sessions, start,
}
use caldera_sandbox.Local.Arrivals.{chars, silences, arrivals, read_hello-arrivals}

-- A client that sends a line, and then reads what it is sent.
pub record Client : Type 0 where
  pub bytes : List (ℕ × ℕ)
  pub pause : ℕ
  pub later : List Read
  pub writes : List Call

abbrev pub session_of : Client → Session
session_of c = record {
  stopped = false;
  read_opens = true;
  reads = arrivals c.bytes (replicate c.pause silent ++ arrives newline ∷ c.later);
  write_opens = true;
  writes = c.writes;
}

module _ (s : HandshakeServer) where
  -- The line is short and arrives before the timeout, and the response goes out whole.
  pub record IsInTime (c : Client) : Type 0 where
    pub plain : All (λ x. x ≢ newline) (chars c.bytes)
    pub short : length c.bytes ≤ 256
    pub early : 10 * (silences c.bytes + c.pause) < s.cfg.timeout_ms
    pub enough : IsEnough (length (line_payload (build_json s))) c.writes

  -- What the protocol promises to a client.
  abbrev pub promised : Client → List ℕ
  promised c =
      if not (is_nil (chars c.bytes)) && same_text (chars c.bytes) s.client_hello
      then line_payload (build_json s)
      else []

  answer-promised :
      (c : Client) → IsInTime c → answer s (session_of c) (chars c.bytes) ≡ some (promised c)
  unfolding answer write_line
  answer-promised c ok =
      elim (Bool-cases (not (is_nil (chars c.bytes)) && same_text (chars c.bytes) s.client_hello)) [
        | inl same ↦
            let (rest, e) = write_loop-IsEnough c.writes (line_payload (build_json s)) ok.enough in
            rw (same, e) refl
        | inr other ↦ rw other refl
      ]

  run_session-promised :
      (c : Client) → IsInTime c → run_session s (session_of c) ≡ some (promised c)
  unfolding run_session
  run_session-promised c ok =
      rw
        (read_hello-arrivals c.bytes c.pause c.later s.cfg.timeout_ms 0 [] ok.plain
          (omega (arith, ok.short)) (omega (arith, ok.early)))
        (answer-promised c ok)

  run_sessions-promised :
      (cs : List Client)
      → All IsInTime cs
      → run_sessions s (length cs) (map session_of cs) ≡ some (map promised cs)
  unfolding run_sessions
  run_sessions-promised [] ok = refl
  run_sessions-promised (c ∷ cs) (one, ok) =
      rw (run_sessions, run_session-promised c one, run_sessions-promised cs ok) refl

-- A handshake server that does not run and creates its pipe, and as many clients, one after another, as
-- it serves sessions, each of which sends a line of at most 256 bytes before the timeout and reads all
-- that it is sent: `start` sends each client whose line is not empty and is the expected text the whole response and a
-- newline at its end, and nothing to the others, and then does not run.
pub start-promised :
    (s : HandshakeServer) (cs : List Client)
    → s.running ≡ false
    → length cs ≡ s.cfg.max_sessions
    → All (IsInTime s) cs
    → start true (map session_of cs) s ≡ some (map (promised s) cs, record s { running = false })
unfolding start
start-promised s cs off all ok =
    let ran =
      subst (λ n. run_sessions s n (map session_of cs) ≡ some (map (promised s) cs)) all
        (run_sessions-promised s cs ok) in
    subst
      (λ b.
        if◌then◌else◌ {A = Option (List (List ℕ) × HandshakeServer)} b (some ([], s)) (
          run_sessions s s.cfg.max_sessions (map session_of cs) >>= λ sent.
          some (sent, record s { running = false }))
        ≡ some (map (promised s) cs, record s { running = false }))
      (sym off) (rw ran refl)
