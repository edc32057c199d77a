-- ===== src/Socket/Server.antt =====
-- backend/src/transport/SocketTransportServer.{h,cpp}. The system calls' outcomes and the clock are
-- arguments, logging is left out.
use caldera_sandbox.Base.{
  ℕ, ◌*◌, ◌%◌, Bool, true, false, ◌&&◌, ◌||◌, not, Option, none, some, List, [], ◌∷◌, ◌++◌, ltb,
  leb, ◌==◌, if◌then◌else◌, length, ◌>>=◌,
}
use caldera_sandbox.Base.Int.{to_u32}
use caldera_sandbox.Base.Words.{u32_mod, sub64}
use caldera_sandbox.World.{WorldFrame}
use caldera_sandbox.Checksum.{crc32}
use caldera_sandbox.Socket.Wire.{WireHeader, wire_magic, wire_size, header_image, words_image}
use caldera_sandbox.Socket.Stream.{Call, write_all}

-- Strings are lists of character codes.
pub record Config : Type 0 where
  pub endpoint : List ℕ
  pub checksum_interval_ms : ℕ

-- `listening` and `client` are `listen_fd_ >= 0` and `client_fd_ >= 0`.
pub record SocketServer : Type 0 where
  pub config : Config
  pub listening : Bool
  pub client : Bool
  pub running : Bool
  pub last_checksum_compute_ns : ℕ
  pub uds_path : List ℕ

-- How `socket`, `bind` and `listen` end.
pub data Outcome : Type 0 where
  socket_fails bind_fails listen_fails listens : Outcome

unfoldable pub create : Config → SocketServer
create c = record {
  config = c;
  listening = false;
  client = false;
  running = false;
  last_checksum_compute_ns = 0;
  uds_path = [];
}

-- What comes after the prefix, if the string has it.
unfoldable pub after_prefix : List ℕ → List ℕ → Option (List ℕ)
after_prefix [] s = some s
after_prefix (p ∷ ps) [] = none
after_prefix (p ∷ ps) (c ∷ s) = let rest = after_prefix ps s in if p == c then rest else none

-- "unix:".
abbrev pub unix_prefix : List ℕ
unix_prefix = 117 ∷ 110 ∷ 105 ∷ 120 ∷ 58 ∷ []

abbrev pub is_empty : List ℕ → Bool
is_empty [] = true
is_empty (_ ∷ _) = false

-- The result, and the path, which stays as it was when the prefix is missing.
unfoldable pub parse_unix_endpoint : List ℕ → List ℕ → Bool × List ℕ
unfolding after_prefix
parse_unix_endpoint endpoint path = elim (after_prefix unix_prefix endpoint) [
  | none ↦ (false, path)
  | some rest ↦ (not (is_empty rest), rest)
]

-- `sizeof(addr.sun_path)`.
abbrev pub sun_path_size : ℕ
sun_path_size = 108

unfoldable pub bind_socket : Outcome → SocketServer → Bool × SocketServer
bind_socket socket_fails s = (false, record s { listening = false })
bind_socket bind_fails s =
    (false, record s { listening = not (ltb (length s.uds_path) sun_path_size) })
bind_socket listen_fails s =
    (false, record s { listening = not (ltb (length s.uds_path) sun_path_size) })
bind_socket listens s = (ltb (length s.uds_path) sun_path_size, record s { listening = true })

unfoldable pub ensure_socket : Outcome → SocketServer → Bool × SocketServer
unfolding bind_socket parse_unix_endpoint
ensure_socket os s =
    let (ok, path) = parse_unix_endpoint s.config.endpoint s.uds_path in
    let s' = record s { uds_path = path } in
    if s.listening then (true, s) else (if ok then bind_socket os s' else (false, s'))

unfoldable pub start : Outcome → SocketServer → SocketServer
unfolding ensure_socket
start os s =
    let (ok, s') = ensure_socket os s in
    if s.running then s else (if ok then record s' { running = true } else s')

-- One round of the accept loop; `arrived` tells whether `accept` returned a client.
unfoldable pub accept_round : Bool → SocketServer → SocketServer
accept_round arrived s =
    if s.running && not s.client && arrived then record s { client = true } else s

unfoldable pub close_client : SocketServer → SocketServer
close_client s = record s { client = false }

unfoldable pub stop : SocketServer → SocketServer
unfolding close_client
stop s = if s.running then record (close_client s) { running = false; listening = false } else s

-- The checksum to send, and the time of the last automatic one.
unfoldable pub choose_checksum : SocketServer → WorldFrame → ℕ → ℕ × ℕ
choose_checksum s frame now =
    let interval = s.config.checksum_interval_ms in
    let last = s.last_checksum_compute_ns in
    let words = frame.height_map.data_words in
    let need_auto = frame.checksum == 0 in
    if ltb 0 interval && need_auto && not (is_empty words)
    then (if last == 0 || leb (interval * 1_000_000) (sub64 now last)
        then (crc32 words, now)
        else (0, last))
    else (if need_auto && interval == 0 then (0, last) else (frame.checksum, last))

unfoldable pub wire_header : WorldFrame → ℕ → WireHeader
wire_header frame cs =
    let hm = frame.height_map in
    record {
      magic = wire_magic;
      version = 1;
      header_bytes = wire_size;
      frame_id = frame.frame_id;
      timestamp_ns = frame.timestamp_ns;
      width = to_u32 hm.width;
      height = to_u32 hm.height;
      float_count = length hm.data_words % u32_mod;
      checksum = cs;
      checksum_algorithm = if cs == 0 then 0 else 1;
    }

-- The payload, after what became of the header.
unfoldable pub send_payload :
    List ℕ → SocketServer → Bool × List ℕ × List Call → Option (List ℕ × SocketServer)
unfolding close_client
send_payload words s (false, sent, rest) = some (sent, close_client s)
send_payload words s (true, sent, rest) =
    write_all rest (words_image words) >>= λ (ok, sent', rest').
    some (sent ++ sent', if ok then s else close_client s)

-- Header, then payload; a failed write drops the client. What went out, and the server after it.
unfoldable pub send_bytes :
    List Call → WireHeader → List ℕ → SocketServer → Option (List ℕ × SocketServer)
unfolding send_payload
send_bytes calls hdr words s =
    write_all calls (header_image hdr) >>= λ result. send_payload words s result

unfoldable pub send_world_frame :
    List Call → ℕ → WorldFrame → SocketServer → Option (List ℕ × SocketServer)
unfolding send_bytes choose_checksum wire_header
send_world_frame calls now frame s =
    let (cs, last) = choose_checksum s frame now in
    let s' = record s { last_checksum_compute_ns = last } in
    if s.running && s.client
    then send_bytes calls (wire_header frame cs) frame.height_map.data_words s'
    else some ([], s)
