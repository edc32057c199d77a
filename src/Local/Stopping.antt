-- ===== src/Local/Stopping.antt =====
-- After `running_` is set to false the thread returns.
use caldera_sandbox.Base.{
  ℕ, zero, suc, ◌+◌, ◌≤◌, ◌<◌, ◌≡◌, refl, sym, ◌⊎◌, inl, inr, Bool, true, false, Bool-cases, none,
  some, List, [], arith, if◌then◌else◌, >>=-eq-some, some_inj,
}
use caldera_sandbox.Base.Text.{same_text}
use mathlib.Core.Path.{subst}
use caldera_sandbox.Fifo.Pipe.{Call, write_line}
use caldera_sandbox.Local.Hello.{Read, hello_turn}
use caldera_sandbox.Local.Server.{
  Server, Worker, none_joinable, opening, waiting, replying, reopening, serving, returned,
  is_joinable, give_up, open_pipes, judge_hello, after_heard, wait_hello, reply, reply_json, reopen,
  client_hello,
}
use caldera_sandbox.Local.Serving.{
  Input, write_fails, finish, receive, serve, Turn, opens, hears, replies, reopens, serves,
}

-- Turns that are left to a stopped thread.
abbrev pub turns_left : Worker → ℕ
turns_left none_joinable = 0
turns_left opening = 5
turns_left (waiting w h) = 4
turns_left replying = 3
turns_left reopening = 2
turns_left (serving line) = 1
turns_left returned = 0

-- `n` turns of the thread, one after another.
pub data Turns (s : Server) : ℕ → Server → Type 0 where
  rests : Turns s zero s
  goes : {n : ℕ} {t u : Server} → Turns s n t → Turn t u → Turns s (suc n) u

-- A turn of a stopped thread.
record Nearer (s t : Server) : Type 0 where
  off : t.running ≡ false
  joinable : is_joinable t.worker ≡ true
  less : turns_left t.worker + 1 ≤ turns_left s.worker

give_up-Nearer : (s : Server) (w : Worker) → s.worker ≡ w → 1 ≤ turns_left w → Nearer s (give_up s)
unfolding give_up
give_up-Nearer s w e some_left = record {
  off = refl;
  joinable = refl;
  less = subst (λ w. 1 ≤ turns_left w) (sym e) some_left;
}

judge_hello-Nearer :
    (g : List ℕ) (w : ℕ) (h : List ℕ) (s : Server)
    → s.running ≡ false
    → s.worker ≡ waiting w h
    → Nearer s (judge_hello g s)
unfolding judge_hello
judge_hello-Nearer g w h s off e = elim (Bool-cases (same_text g client_hello)) [
  | inl same ↦ rw same (record {
    off = off;
    joinable = refl;
    less = subst (λ w. 4 ≤ turns_left w) (sym e) (omega arith);
  })
  | inr other ↦ rw other (give_up-Nearer s (waiting w h) e (omega arith))
]

reply-Nearer :
    (b : Bool) (calls : List Call) (ms : List ℕ) (s t : Server)
    → s.running ≡ false
    → s.worker ≡ replying
    → reply b calls ms s ≡ some t
    → Nearer s t
unfolding reply
reply-Nearer true calls ms s t off e got =
    let (out, wrote_it, made) = >>=-eq-some (write_line calls (reply_json ms)) _ got in
    subst (Nearer s) (some_inj made) (record {
      off = off;
      joinable = refl;
      less = subst (λ w. 3 ≤ turns_left w) (sym e) (omega arith);
    })
reply-Nearer false calls ms s t off e got =
    subst (Nearer s) (some_inj got) (give_up-Nearer s replying e (omega arith))

Turn-Nearer : {s t : Server} → Turn s t → s.running ≡ false → Nearer s t
unfolding open_pipes wait_hello hello_turn after_heard reopen serve finish
Turn-Nearer (opens made made' true s e) off = record {
  off = off;
  joinable = refl;
  less = subst (λ w. 5 ≤ turns_left w) (sym e) (omega arith);
}
Turn-Nearer (opens made made' false s e) off = give_up-Nearer s opening e (omega arith)
Turn-Nearer (hears r w h s e) off =
    subst (λ b. Nearer s (after_heard (hello_turn b s.cfg.handshake_timeout_ms r w h) s)) (sym off)
      (judge_hello-Nearer h w h s off e)
Turn-Nearer (replies b calls ms s t e got) off = reply-Nearer b calls ms s t off e got
Turn-Nearer (reopens true s e) off = record {
  off = off;
  joinable = refl;
  less = subst (λ w. 2 ≤ turns_left w) (sym e) (omega arith);
}
Turn-Nearer (reopens false s e) off = give_up-Nearer s reopening e (omega arith)
Turn-Nearer (serves i st line s e) off =
    subst (λ b. Nearer s (if b then receive i st line s else finish s)) (sym off)
      (record {
        off = off;
        joinable = refl;
        less = subst (λ w. 1 ≤ turns_left w) (sym e) (omega arith);
      })

-- What is left of the turns after some of them.
record After (n : ℕ) (s t : Server) : Type 0 where
  off : t.running ≡ false
  joinable : is_joinable t.worker ≡ true
  left : n + turns_left t.worker ≤ turns_left s.worker

Turns-After :
    {s : Server} {n : ℕ} {t : Server}
    → Turns s n t
    → s.running ≡ false
    → is_joinable s.worker ≡ true
    → After n s t
Turns-After rests off joinable = record { off = off; joinable = joinable; left = omega arith }
Turns-After (goes before turn) off joinable =
    let so_far = Turns-After before off joinable in
    let near = Turn-Nearer turn so_far.off in
    record { off = near.off; joinable = near.joinable; left = omega arith }

turns_left-le : (w : Worker) → turns_left w ≤ 5
turns_left-le none_joinable = omega arith
turns_left-le opening = omega arith
turns_left-le (waiting w h) = omega arith
turns_left-le replying = omega arith
turns_left-le reopening = omega arith
turns_left-le (serving line) = omega arith
turns_left-le returned = omega arith

goes_on-from :
    (w : Worker) (t : Server)
    → t.worker ≡ w
    → is_joinable w ≡ true
    → (w ≡ returned) ⊎ ((1 ≤ turns_left w) × ((u : Server) × Turn t u))
unfolding reply
goes_on-from none_joinable t e j = cc
goes_on-from opening t e j = inr (omega arith, (_, opens true true true t e))
goes_on-from (waiting w h) t e j = inr (omega arith, (_, hears Read.silent w h t e))
goes_on-from replying t e j = inr (omega arith, (_, replies false [] [] t (give_up t) e refl))
goes_on-from reopening t e j = inr (omega arith, (_, reopens true t e))
goes_on-from (serving line) t e j = inr (
  omega arith,
  (_, serves Input.silent (record { now = 0; provider = none; end = write_fails }) line t e),
)
goes_on-from returned t e j = inl refl

-- When `running_` is false and there is a thread to join, as after the first statement of `stop`: however
-- the calls of the system end, after `n` turns of the thread `n` is at most 5, `running_` is still false,
-- and the thread has returned, so that it can be joined, or it can go on and `n` is less than 5.
pub stop_running-returns :
    (n : ℕ) (s t : Server)
    → s.running ≡ false
    → is_joinable s.worker ≡ true
    → Turns s n t
    → (n ≤ 5)
      × (t.running ≡ false)
      × ((t.worker ≡ returned) ⊎ ((n < 5) × ((u : Server) × Turn t u)))
stop_running-returns n s t off joinable turns =
    let after = Turns-After turns off joinable in
    let most = turns_left-le s.worker in
    (
      omega arith,
      after.off,
      elim (goes_on-from t.worker t refl after.joinable) [
        | inl done ↦ inl done
        | inr (some_left, more) ↦ inr (omega arith, more)
      ],
    )
