-- ===== src/Local/Server.antt =====
-- `LocalTransportServer`. `Worker` is where its thread stands; a turn of the thread runs up to its next
-- wait. `s2c` is what was written to the pipe that the client reads; `pipes` whether the thread has made the
-- name of a pipe and not unlinked it since. Times are in nanoseconds unless they end in `_ms`.
use caldera_sandbox.Base.{
  ℕ, ◌*◌, Bool, true, false, not, ◌&&◌, ◌||◌, Option, none, some, List, [], ◌++◌, ◌>>=◌, leb, ◌==◌,
  if◌then◌else◌,
}
use caldera_sandbox.Base.Words.{sub64}
use caldera_sandbox.Base.Text.{codes, same_text}
use caldera_sandbox.Fifo.Pipe.{Call, write_line}
use caldera_sandbox.Local.Hello.{Read, Heard, goes_on, over, hello_turn}

pub record Config : Type 0 where
  pub handshake_timeout_ms : ℕ
  pub max_json_field_len : ℕ
  pub heartbeat_log_throttle_ms : ℕ
  pub server_stats_interval_ms : ℕ

-- A thread that `returned` is still to be joined.
pub data Worker : Type 0 where
  none_joinable opening replying reopening returned : Worker
  waiting : ℕ → List ℕ → Worker
  serving : List ℕ → Worker

pub record Server : Type 0 where
  pub cfg : Config
  pub running : Bool
  pub handshake_completed : Bool
  pub last_heartbeat_ns : ℕ
  pub last_log_heartbeat_ns : ℕ
  pub last_stats_emit_ns : ℕ
  pub wfd_s2c : Bool
  pub pipes : Bool
  pub s2c : List ℕ
  pub worker : Worker

unfoldable pub create : Config → Server
create cfg = record {
  cfg = cfg;
  running = false;
  handshake_completed = false;
  last_heartbeat_ns = 0;
  last_log_heartbeat_ns = 0;
  last_stats_emit_ns = 0;
  wfd_s2c = false;
  pipes = false;
  s2c = [];
  worker = none_joinable;
}

abbrev pub is_joinable : Worker → Bool
is_joinable none_joinable = false
is_joinable _ = true

-- Assigning a thread to one that is joinable ends the process: `none`.
unfoldable pub start : Server → Option Server
start s =
    if s.running
    then some s
    else (if is_joinable s.worker
        then none
        else some (record {
          cfg = s.cfg;
          running = true;
          handshake_completed = false;
          last_heartbeat_ns = 0;
          last_log_heartbeat_ns = 0;
          last_stats_emit_ns = 0;
          wfd_s2c = false;
          pipes = s.pipes;
          s2c = s.s2c;
          worker = opening;
        }))

-- The first statement of `stop`; the second, `join`, waits until the thread has returned.
unfoldable pub stop_running : Server → Server
stop_running s = record s { running = false }

unfoldable pub join : Server → Server
join s = record s { worker = none_joinable }

unfoldable pub is_client_alive : ℕ → ℕ → Server → Bool
is_client_alive now timeout_ms s =
    not (s.last_heartbeat_ns == 0) && leb (sub64 now s.last_heartbeat_ns) (timeout_ms * 1_000_000)

-- An early return of the thread.
unfoldable pub give_up : Server → Server
give_up s = record s { running = false; pipes = false; worker = returned }

-- The results of making the two pipes are not looked at, only whether the one to the server opens.
unfoldable pub open_pipes : Bool → Bool → Bool → Server → Server
unfolding give_up
open_pipes made_s2c made_c2s opens s =
    if opens then record s { pipes = made_s2c || made_c2s; worker = waiting 0 [] } else give_up s

abbrev pub client_hello : List ℕ
client_hello = codes "HELLO_CALDERA_CLIENT_V1"

unfoldable pub judge_hello : List ℕ → Server → Server
unfolding same_text give_up
judge_hello hello s =
    if same_text hello client_hello then record s { worker = replying } else give_up s

unfoldable pub after_heard : Heard → Server → Server
unfolding judge_hello
after_heard (over h) s = judge_hello h s
after_heard (goes_on w h) s = record s { worker = waiting w h }

unfoldable pub wait_hello : Read → ℕ → List ℕ → Server → Server
unfolding hello_turn after_heard
wait_hello r waited hello s =
    after_heard (hello_turn s.running s.cfg.handshake_timeout_ms r waited hello) s

-- The response; `ms` is the clock's reading as text.
unfoldable pub reply_json : List ℕ → List ℕ
reply_json ms =
    codes "{\n  \"protocol_version\": \"1.0\",\n  \"shm_name_a\": \"/caldera_shm_a_"
    ++ (ms
        ++ (codes "\",\n  \"shm_name_b\": \"/caldera_shm_b_"
            ++ (ms
                ++ codes
                    "\",\n  \"shm_size\": 1048576,\n  \"height_map_width\": 512,\n  \"height_map_height\": 512\n}")))

-- `none` means that there are too few calls of `write`.
unfoldable pub reply : Bool → List Call → List ℕ → Server → Option Server
unfolding give_up write_line reply_json
reply opens calls ms s =
    if opens
    then (write_line calls (reply_json ms) >>= λ (ok, sent, rest). some (record s {
      wfd_s2c = true;
      s2c = s.s2c ++ sent;
      handshake_completed = true;
      worker = reopening;
    }))
    else some (give_up s)

unfoldable pub reopen : Bool → Server → Server
unfolding give_up
reopen opens s = if opens then record s { worker = serving [] } else give_up s
