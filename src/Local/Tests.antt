-- ===== src/Local/Tests.antt =====
-- Two clients of a handshake server, and a server that is stopped while it waits.
use caldera_sandbox.Base.{
  ℕ, ◌≤◌, ◌<◌, ◌≡◌, refl, ◌⊎◌, true, false, none, some, List, [], ◌∷◌, map, arith, replicate,
}
use caldera_sandbox.Base.Text.{codes, same_text}
use caldera_sandbox.Fifo.Pipe.{moves, line_payload}
use caldera_sandbox.Local.Hello.{silent, arrives, read_hello}
use caldera_sandbox.Local.Handshake.{HandshakeServer, build_json, start}
use caldera_sandbox.Local.Server.{
  Config, Server, Worker, returned, is_joinable, create, stop_running, open_pipes, wait_hello,
}
use caldera_sandbox.Local.Server
use caldera_sandbox.Local.Serving.{Turn, opens, hears, starts, turns, Reach, here, next}
use caldera_sandbox.Local.Sound.{IsSound, Reach-IsSound}
use caldera_sandbox.Local.Stopping.{rests, goes, stop_running-returns}
use caldera_sandbox.Local.Arrivals.{read_hello-some}
use caldera_sandbox.Local.Answers.{Client, session_of, IsInTime, promised, start-promised}

abbrev handshake : HandshakeServer
handshake = record {
  cfg = record { timeout_ms = 30; max_sessions = 2 };
  static_fields = (codes "v", codes "1") ∷ [];
  dynamic_builder = none;
  running = false;
  client_hello = codes "Hi";
}

-- `Hi` after two reads that find nothing.
abbrev polite : Client
polite = record {
  bytes = (1, 72) ∷ (1, 105) ∷ [];
  pause = 0;
  later = [];
  writes = replicate 16 (moves 7);
}

abbrev rude : Client
rude = record { bytes = (0, 72) ∷ []; pause = 2; later = []; writes = replicate 16 (moves 7) }

polite-IsInTime : IsInTime handshake polite
unfolding build_json line_payload
polite-IsInTime = record {
  plain = (omega arith, (omega arith, tt));
  short = omega arith;
  early = omega arith;
  enough = tt;
}

rude-IsInTime : IsInTime handshake rude
unfolding build_json line_payload
rude-IsInTime = record {
  plain = (omega arith, tt);
  short = omega arith;
  early = omega arith;
  enough = tt;
}

promised_values :
    map (promised handshake) (polite ∷ rude ∷ []) ≡ codes "{\n  \"v\": 1\n}\n" ∷ [] ∷ []
unfolding same_text build_json line_payload
promised_values = refl

start-promised_example :
    start true (map session_of (polite ∷ rude ∷ [])) handshake
    ≡ some (map (promised handshake) (polite ∷ rude ∷ []), record handshake { running = false })
start-promised_example =
    start-promised handshake (polite ∷ rude ∷ []) refl refl (polite-IsInTime, (rude-IsInTime, tt))

read_hello-some_example : (g : List ℕ) × (read_hello (replicate 260 (arrives 72)) 20 0 [] ≡ some g)
read_hello-some_example =
    read_hello-some (replicate 260 (arrives 72)) 20 0 [] (omega arith) (omega arith)

abbrev config : Config
config = record {
  handshake_timeout_ms = 3000;
  max_json_field_len = 1024;
  heartbeat_log_throttle_ms = 2000;
  server_stats_interval_ms = 1000;
}

-- Started, with both pipes open.
abbrev waits : Server
waits = record {
  cfg = config;
  running = true;
  handshake_completed = false;
  last_heartbeat_ns = 0;
  last_log_heartbeat_ns = 0;
  last_stats_emit_ns = 0;
  wfd_s2c = false;
  pipes = true;
  s2c = [];
  worker = Worker.waiting 0 [];
}

reaches_waits : Reach (create config) waits
unfolding create Server.start open_pipes
reaches_waits =
    next
      (next here
        (starts (create config) (record waits { pipes = false; worker = Worker.opening }) refl))
      (turns (opens true true true (record waits { pipes = false; worker = Worker.opening }) refl))

Reach-IsSound_example : IsSound waits
Reach-IsSound_example = Reach-IsSound config reaches_waits

stop_running-returns_example :
    (1 ≤ 5)
    × ((wait_hello silent 0 [] (stop_running waits)).running ≡ false)
    × (((wait_hello silent 0 [] (stop_running waits)).worker ≡ returned)
        ⊎ ((1 < 5) × ((u : Server) × Turn (wait_hello silent 0 [] (stop_running waits)) u)))
unfolding stop_running
stop_running-returns_example =
    stop_running-returns 1 (stop_running waits) (wait_hello silent 0 [] (stop_running waits)) refl
      refl (goes rests (hears silent 0 [] (stop_running waits) refl))
