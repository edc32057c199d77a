-- ===== src/Local/Sound.antt =====
-- What holds of the server after any steps.
use caldera_sandbox.Base.{
  ℕ, ◌+◌, ◌≤◌, ◌<◌, ◌≡◌, refl, sym, ap, ◌∙◌, ◌⊎◌, inl, inr, Bool, true, false, Bool-cases, some,
  List, [], ◌∷◌, ltb, ltb→lt, length, length-append, arith, >>=-eq-some, some_inj, if-either,
}
use caldera_sandbox.Base.Text.{same_text}
use mathlib.Core.Path.{subst}
use caldera_sandbox.Fifo.Pipe.{Call, write_line}
use caldera_sandbox.Local.Hello.{Read, arrives, Heard, goes_on, over, heard, hello_turn}
use caldera_sandbox.Local.Server.{
  Config, Server, Worker, none_joinable, opening, waiting, replying, reopening, serving, returned,
  create, is_joinable, start, stop_running, join, give_up, open_pipes, judge_hello, wait_hello,
  after_heard, reply, reply_json, reopen, client_hello,
}
use caldera_sandbox.Local.Serving.{
  take_line, take_byte, take_bytes, Input, Stats, write_stats, provide, emit_stats, finish, receive,
  serve, arrive, Turn, opens, hears, replies, reopens, serves, Step, starts, stops, joins, turns,
  Reach, here, next,
}

-- Before the handshake is complete, nothing of the client counts and nothing is open for it.
pub record IsFresh (completed wfd : Bool) (heartbeat emission : ℕ) : Type 0 where
  pub not_completed : completed ≡ false
  pub no_writer : wfd ≡ false
  pub no_heartbeat : heartbeat ≡ 0
  pub no_emission : emission ≡ 0

-- What the place of the thread says of the other members.
abbrev Fits : Config → Bool → Bool → Bool → ℕ → ℕ → Worker → Type 0
Fits cfg completed wfd pipes heartbeat emission none_joinable = pipes ≡ false
Fits cfg completed wfd pipes heartbeat emission opening =
    (pipes ≡ false) × IsFresh completed wfd heartbeat emission
Fits cfg completed wfd pipes heartbeat emission (waiting waited hello) =
    IsFresh completed wfd heartbeat emission
    × (length hello ≤ 256)
    × (waited < cfg.handshake_timeout_ms + 10)
Fits cfg completed wfd pipes heartbeat emission replying = IsFresh completed wfd heartbeat emission
Fits cfg completed wfd pipes heartbeat emission reopening = (completed ≡ true) × (heartbeat ≡ 0)
Fits cfg completed wfd pipes heartbeat emission (serving line) =
    (completed ≡ true) × (length line ≤ cfg.max_json_field_len)
Fits cfg completed wfd pipes heartbeat emission returned = pipes ≡ false

abbrev pub Stands : Server → Worker → Type 0
Stands s w =
    Fits s.cfg s.handshake_completed s.wfd_s2c s.pipes s.last_heartbeat_ns s.last_stats_emit_ns w

pub record IsSound (s : Server) : Type 0 where
  pub stands : Stands s s.worker
  pub heard_late : (s.last_heartbeat_ns ≡ 0) ⊎ (s.handshake_completed ≡ true)
  pub open_late : (s.wfd_s2c ≡ false) ⊎ (s.handshake_completed ≡ true)
  pub runs : (s.running ≡ false) ⊎ (is_joinable s.worker ≡ true)

create-IsSound : (cfg : Config) → IsSound (create cfg)
unfolding create
create-IsSound cfg = record {
  stands = refl;
  heard_late = inl refl;
  open_late = inl refl;
  runs = inl refl;
}

give_up-IsSound : (s : Server) → IsSound s → IsSound (give_up s)
unfolding give_up
give_up-IsSound s h = record {
  stands = refl;
  heard_late = h.heard_late;
  open_late = h.open_late;
  runs = inl refl;
}

restarted-IsSound :
    (w : Worker) (s t : Server)
    → is_joinable w ≡ false
    → Stands s w
    → some (record {
      cfg = s.cfg;
      running = true;
      handshake_completed = false;
      last_heartbeat_ns = 0;
      last_log_heartbeat_ns = 0;
      last_stats_emit_ns = 0;
      wfd_s2c = false;
      pipes = s.pipes;
      s2c = s.s2c;
      worker = opening;
    })
      ≡ some t
    → IsSound t
restarted-IsSound none_joinable s t j st e = subst IsSound (some_inj e) (record {
  stands = (
    st,
    record { not_completed = refl; no_writer = refl; no_heartbeat = refl; no_emission = refl },
  );
  heard_late = inl refl;
  open_late = inl refl;
  runs = inr refl;
})
restarted-IsSound opening s t j st e = cc
restarted-IsSound (waiting w g) s t j st e = cc
restarted-IsSound replying s t j st e = cc
restarted-IsSound reopening s t j st e = cc
restarted-IsSound (serving l) s t j st e = cc
restarted-IsSound returned s t j st e = cc

start-IsSound : (s t : Server) → IsSound s → start s ≡ some t → IsSound t
unfolding start
start-IsSound s t h e = elim (Bool-cases s.running) [
  | inl on ↦ (let same : s ≡ t = ground arith in subst IsSound same h)
  | inr off ↦ elim (Bool-cases (is_joinable s.worker)) [
    | inl joinable ↦ cc (rw (off, joinable) at e)
    | inr free ↦ restarted-IsSound s.worker s t free h.stands (rw (off, free) at e)
  ]
]

open_pipes-IsSound :
    (a c b : Bool) (s : Server) → s.worker ≡ opening → IsSound s → IsSound (open_pipes a c b s)
unfolding open_pipes
open_pipes-IsSound a c true s e h =
    let st = subst (Stands s) e h.stands in
    record {
      stands = (st.1, omega arith, omega arith);
      heard_late = h.heard_late;
      open_late = h.open_late;
      runs = inr refl;
    }
open_pipes-IsSound a c false s e h = give_up-IsSound s h

judge_hello-IsSound :
    (g : List ℕ) (w : ℕ) (hello : List ℕ) (s : Server)
    → s.worker ≡ waiting w hello
    → IsSound s
    → IsSound (judge_hello g s)
unfolding judge_hello
judge_hello-IsSound g w hello s e h = elim (Bool-cases (same_text g client_hello)) [
  | inl same ↦
      let st = subst (Stands s) e h.stands in
      rw same (record {
        stands = st.0;
        heard_late = h.heard_late;
        open_late = h.open_late;
        runs = inr refl;
      })
  | inr other ↦ rw other (give_up-IsSound s h)
]

reopen-IsSound : (b : Bool) (s : Server) → s.worker ≡ reopening → IsSound s → IsSound (reopen b s)
unfolding reopen
reopen-IsSound true s e h =
    let st = subst (Stands s) e h.stands in
    record {
      stands = (st.0, omega arith);
      heard_late = h.heard_late;
      open_late = h.open_late;
      runs = inr refl;
    }
reopen-IsSound false s e h = give_up-IsSound s h

finish-IsSound : (s : Server) → IsSound s → IsSound (finish s)
unfolding finish
finish-IsSound s h = record {
  stands = refl;
  heard_late = h.heard_late;
  open_late = inl refl;
  runs = inr refl;
}

-- What a turn of the heartbeat loop leaves alone.
record Keeps (s t : Server) : Type 0 where
  same_cfg : t.cfg ≡ s.cfg
  same_completed : t.handshake_completed ≡ s.handshake_completed
  same_pipes : t.pipes ≡ s.pipes
  same_running : t.running ≡ s.running

take_line-Keeps : (now : ℕ) (line : List ℕ) (s : Server) → Keeps s (take_line now line s)
unfolding take_line
take_line-Keeps now line s = ground arith

emit_stats-Keeps : (st : Stats) (s : Server) → Keeps s (emit_stats st s)
unfolding emit_stats provide write_stats
emit_stats-Keeps st s = ground arith

emit_stats-worker : (st : Stats) (s : Server) → (emit_stats st s).worker ≡ s.worker
unfolding emit_stats provide write_stats
emit_stats-worker st s = ground arith

record Received (s : Server) (r : List ℕ × Server) : Type 0 where
  keeps : Keeps s r.1
  short : length r.0 ≤ s.cfg.max_json_field_len

take_byte-Received :
    (b : ℕ × ℕ) (line : List ℕ) (s t : Server)
    → Received s (line, t)
    → Received s (take_byte b (line, t))
unfolding take_byte
take_byte-Received (c, now) line s t h =
    grind (arith, take_line-Keeps now line t, length-append line (c ∷ []))

take_bytes-Received :
    (bs : List (ℕ × ℕ)) (s : Server) (r : List ℕ × Server)
    → Received s r
    → Received s (take_bytes bs r)
unfolding take_bytes
take_bytes-Received [] s r h = h
take_bytes-Received (b ∷ bs) s (line, t) h =
    take_bytes-Received bs s (take_byte b (line, t)) (take_byte-Received b line s t h)

-- A thread that is still in its loop.
serving-IsSound :
    (line : List ℕ) (s t : Server)
    → Keeps s t
    → IsSound s
    → s.handshake_completed ≡ true
    → length line ≤ s.cfg.max_json_field_len
    → t.worker ≡ serving line
    → IsSound t
serving-IsSound line s t k h completed short at = record {
  stands = subst (Stands t) (sym at) (k.same_completed ∙ completed, ground arith);
  heard_late = inr (k.same_completed ∙ completed);
  open_late = inr (k.same_completed ∙ completed);
  runs = inr (ap is_joinable at);
}

abbrev Waits : ℕ → Heard → Type 0
Waits timeout (over h) = Unit
Waits timeout (goes_on w h) = (length h ≤ 256) × (w < timeout + 10)

heard-Waits :
    (timeout : ℕ) (r : Read) (w : ℕ) (g : List ℕ)
    → length g ≤ 256
    → w < timeout
    → Waits timeout (heard r w g)
unfolding heard
heard-Waits timeout Read.silent w g short early = omega arith
heard-Waits timeout Read.fails w g short early = tt
heard-Waits timeout (arrives c) w g short early = ground (arith, length-append g (c ∷ []))

hello_turn-Waits :
    (running : Bool) (timeout : ℕ) (r : Read) (w : ℕ) (g : List ℕ)
    → length g ≤ 256
    → Waits timeout (hello_turn running timeout r w g)
unfolding hello_turn
hello_turn-Waits false timeout r w g short = tt
hello_turn-Waits true timeout r w g short = elim (Bool-cases (ltb w timeout)) [
  | inl early ↦ rw early (heard-Waits timeout r w g short (ltb→lt w timeout early))
  | inr late ↦ rw late tt
]

after_heard-IsSound :
    (x : Heard) (w : ℕ) (g : List ℕ) (s : Server)
    → s.worker ≡ waiting w g
    → IsSound s
    → Waits s.cfg.handshake_timeout_ms x
    → IsSound (after_heard x s)
unfolding after_heard
after_heard-IsSound (over x) w g s e h ok = judge_hello-IsSound x w g s e h
after_heard-IsSound (goes_on w' g') w g s e h ok =
    let st = subst (Stands s) e h.stands in
    record {
      stands = (st.0, ok.0, ok.1);
      heard_late = h.heard_late;
      open_late = h.open_late;
      runs = inr refl;
    }

wait_hello-IsSound :
    (r : Read) (w : ℕ) (g : List ℕ) (s : Server)
    → s.worker ≡ waiting w g
    → IsSound s
    → IsSound (wait_hello r w g s)
unfolding wait_hello
wait_hello-IsSound r w g s e h =
    let st = subst (Stands s) e h.stands in
    after_heard-IsSound (hello_turn s.running s.cfg.handshake_timeout_ms r w g) w g s e h
      (hello_turn-Waits s.running s.cfg.handshake_timeout_ms r w g st.1)

reply-IsSound :
    (b : Bool) (calls : List Call) (ms : List ℕ) (s t : Server)
    → s.worker ≡ replying
    → reply b calls ms s ≡ some t
    → IsSound s
    → IsSound t
unfolding reply
reply-IsSound true calls ms s t e got h =
    let ((ok, sent, rest), wrote_it, made) = >>=-eq-some (write_line calls (reply_json ms)) _ got in
    let st = subst (Stands s) e h.stands in
    subst IsSound (some_inj made) (record {
      stands = (refl, st.no_heartbeat);
      heard_late = inr refl;
      open_late = inr refl;
      runs = inr refl;
    })
reply-IsSound false calls ms s t e got h = subst IsSound (some_inj got) (give_up-IsSound s h)

receive-IsSound :
    (i : Input) (st : Stats) (line : List ℕ) (s : Server)
    → s.worker ≡ serving line
    → IsSound s
    → IsSound (receive i st line s)
unfolding receive
receive-IsSound Input.silent st line s e h =
    let at = subst (Stands s) e h.stands in
    let k = emit_stats-Keeps st s in
    serving-IsSound line s (emit_stats st s) k h at.0 at.1 (emit_stats-worker st s ∙ e)
receive-IsSound Input.fails st line s e h = finish-IsSound s h
receive-IsSound (arrive bytes) st line s e h =
    let at = subst (Stands s) e h.stands in
    let got =
      take_bytes-Received bytes s (line, s)
        (record {
          keeps = record {
            same_cfg = refl;
            same_completed = refl;
            same_pipes = refl;
            same_running = refl;
          };
          short = at.1;
        }) in
    let (line', s') = take_bytes bytes (line, s) in
    let k = emit_stats-Keeps st (record s' { worker = serving line' }) in
    serving-IsSound line' s (emit_stats st (record s' { worker = serving line' }))
      (record {
        same_cfg = k.same_cfg ∙ got.keeps.same_cfg;
        same_completed = k.same_completed ∙ got.keeps.same_completed;
        same_pipes = k.same_pipes ∙ got.keeps.same_pipes;
        same_running = k.same_running ∙ got.keeps.same_running;
      })
      h at.0 got.short (emit_stats-worker st (record s' { worker = serving line' }))

serve-IsSound :
    (i : Input) (st : Stats) (line : List ℕ) (s : Server)
    → s.worker ≡ serving line
    → IsSound s
    → IsSound (serve i st line s)
unfolding serve
serve-IsSound i st line s e h =
    if-either IsSound s.running (receive i st line s) (finish s) (receive-IsSound i st line s e h)
      (finish-IsSound s h)

Turn-IsSound : {s t : Server} → Turn s t → IsSound s → IsSound t
Turn-IsSound (opens a c b s e) h = open_pipes-IsSound a c b s e h
Turn-IsSound (hears r w g s e) h = wait_hello-IsSound r w g s e h
Turn-IsSound (replies b calls ms s t e got) h = reply-IsSound b calls ms s t e got h
Turn-IsSound (reopens b s e) h = reopen-IsSound b s e h
Turn-IsSound (serves i st line s e) h = serve-IsSound i st line s e h

Step-IsSound : {s t : Server} → Step s t → IsSound s → IsSound t
unfolding stop_running join
Step-IsSound (starts s t e) h = start-IsSound s t h e
Step-IsSound (stops s) h = record {
  stands = h.stands;
  heard_late = h.heard_late;
  open_late = h.open_late;
  runs = inl refl;
}
Step-IsSound (joins s off e) h = record {
  stands = subst (Stands s) e h.stands;
  heard_late = h.heard_late;
  open_late = h.open_late;
  runs = inl off;
}
Step-IsSound (turns turn) h = Turn-IsSound turn h

-- After any steps of a new server, of its owner and of its thread, the server is sound: while the thread
-- opens the pipes, waits for the client's line or is to reply, the handshake is not complete, no pipe is
-- open for statistics, and no heartbeat and no emission is noted; the waiting thread has kept at most 256
-- bytes and waited less than 10 ms beyond the timeout; in the heartbeat loop the handshake is complete and
-- the unfinished line is no longer than allowed; before the thread opens the pipes and when it has returned,
-- there is no name of a pipe that it made and did not unlink; a heartbeat is noted, and a pipe open for
-- statistics, only after a complete handshake; and a server that runs has a thread to join.
pub Reach-IsSound : (cfg : Config) {s : Server} → Reach (create cfg) s → IsSound s
Reach-IsSound cfg here = create-IsSound cfg
Reach-IsSound cfg (next r step) = Step-IsSound step (Reach-IsSound cfg r)
