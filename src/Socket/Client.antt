-- ===== src/Socket/Client.antt =====
-- backend/src/transport/SocketWorldFrameClient.{h,cpp}. The stream is what the server sent and the client
-- has not read; connecting is an outcome per round.
use caldera_sandbox.Base.{
  ℕ, ◌*◌, Bool, true, false, ◌&&◌, not, Option, none, some, List, [], ◌∷◌, ltb, ◌==◌, if◌then◌else◌,
  ◌>>=◌, length,
}
use caldera_sandbox.Base.Words.{inc64}
use caldera_sandbox.Checksum.{crc32}
use caldera_sandbox.Shm.Client.{Stats, no_stats, count_frame, count_check}
use caldera_sandbox.Socket.Wire.{WireHeader, wire_magic, wire_size, read_image, read_words}
use caldera_sandbox.Socket.Server.{parse_unix_endpoint, sun_path_size}
use caldera_sandbox.Socket.Stream.{Call, read_exact}

-- `data_words` is what the view's pointer shows.
pub record FrameView : Type 0 where
  pub frame_id : ℕ
  pub timestamp_ns : ℕ
  pub width : ℕ
  pub height : ℕ
  pub data_words : List ℕ
  pub float_count : ℕ
  pub checksum : ℕ
  pub checksum_algorithm : ℕ
  pub checksum_valid : Bool

-- `connected` is `fd_ >= 0`.
pub record SocketClient : Type 0 where
  pub connected : Bool
  pub payload : List ℕ
  pub stats : Stats

abbrev pub closed : SocketClient
closed = record { connected = false; payload = []; stats = no_stats }

-- What one round of the connecting loop meets: no socket, no server within 200 ms, or one.
pub data Round : Type 0 where
  no_socket refused connects : Round

-- The loop, with the clock before each round; a path that does not fit its address ends it. `none` is
-- a schedule that ends before the loop does.
unfoldable pub connect_rounds :
    ℕ → List ℕ → List (ℕ × Round) → SocketClient → Option (Bool × SocketClient)
connect_rounds deadline path [] c = none
connect_rounds deadline path ((now, round) ∷ rounds) c =
    let more = connect_rounds deadline path rounds c in
    let fits = ltb (length path) sun_path_size in
    if ltb now deadline
    then elim round [
      | no_socket ↦ some (false, c)
      | refused ↦ (if fits then more else some (false, c))
      | connects ↦ (if fits then some (true, record c { connected = true }) else some (false, c))
    ]
    else some (false, c)

unfoldable pub connect : List ℕ → ℕ → List (ℕ × Round) → SocketClient → Option (Bool × SocketClient)
unfolding connect_rounds
connect endpoint deadline rounds c =
    let (ok, path) = parse_unix_endpoint endpoint [] in
    if c.connected
    then some (true, c)
    else (if ok then connect_rounds deadline path rounds c else some (false, c))

unfoldable pub disconnect : SocketClient → SocketClient
disconnect c = closed

abbrev same_bytes : List ℕ → List ℕ → Bool
same_bytes [] [] = true
same_bytes (x ∷ xs) (y ∷ ys) = (x == y) && same_bytes xs ys
same_bytes _ _ = false

unfoldable pub accepts_header : WireHeader → Bool
accepts_header h =
    same_bytes h.magic wire_magic && (h.version == 1) && (h.header_bytes == wire_size)

unfoldable pub view_of : WireHeader → List ℕ → FrameView
view_of h words = record {
  frame_id = h.frame_id;
  timestamp_ns = h.timestamp_ns;
  width = h.width;
  height = h.height;
  data_words = words;
  float_count = h.float_count;
  checksum = h.checksum;
  checksum_algorithm = h.checksum_algorithm;
  checksum_valid = true;
}

-- The statistics, and the verdict on the checksum.
unfoldable pub observe_frame : Bool → WireHeader → List ℕ → SocketClient → FrameView × SocketClient
unfolding view_of count_frame count_check
observe_frame verify h words c =
    let v = view_of h words in
    let seen = count_frame h.frame_id c.stats in
    let present = record seen { checksum_present = inc64 seen.checksum_present } in
    let ok = crc32 words == h.checksum in
    if verify && (h.checksum_algorithm == 1) && not (h.checksum == 0) && ltb 0 h.float_count
    then (
      record v { checksum_valid = ok },
      record c { payload = words; stats = count_check ok present },
    )
    else (v, record c { payload = words; stats = seen })

-- What `latest` returns: the view, the client, and the calls and the stream that are left.
abbrev pub Polled : Type 0
Polled = Option FrameView × SocketClient × List Call × List ℕ

-- `readPayload`, when there is one, and the rest of `latest`.
unfoldable pub finish_frame :
    Bool → WireHeader → SocketClient → Bool × List ℕ × List Call × List ℕ → Option Polled
unfolding observe_frame
finish_frame verify h c (true, bytes, calls, stream) =
    let (v, c') = observe_frame verify h (read_words h.float_count bytes) c in
    some (some v, c', calls, stream)
finish_frame verify h c (false, bytes, calls, stream) = some (none, disconnect c, calls, stream)

unfoldable pub read_frame : Bool → SocketClient → Bool × List ℕ × List Call × List ℕ → Option Polled
unfolding finish_frame
read_frame verify c (true, bytes, calls, stream) =
    let h = read_image bytes in
    let payload = read_exact calls (h.float_count * 4) stream in
    if accepts_header h
    then payload >>= finish_frame verify h c
    else some (none, disconnect c, calls, stream)
read_frame verify c (false, bytes, calls, stream) = some (none, disconnect c, calls, stream)

unfoldable pub latest : Bool → List Call → List ℕ → SocketClient → Option Polled
unfolding read_frame
latest verify calls stream c =
    if c.connected
    then read_exact calls wire_size stream >>= read_frame verify c
    else some (none, c, calls, stream)
