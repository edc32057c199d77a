-- ===== src/Socket/Tests.antt =====
-- A frame of two values through the socket, and the theorems at it.
use caldera_sandbox.Base.{
  ℕ, ◌≡◌, refl, Bool, true, false, ◌⊎◌, inl, some, List, [], ◌∷◌, ◌++◌, arith, replicate,
}
use caldera_sandbox.Base.Int.{pos}
use caldera_sandbox.World.{WorldFrame}
use caldera_sandbox.Socket.Wire.{WireHeader, wire_magic, header_image, read_image}
use caldera_sandbox.Socket.Stream.{Call, fails, moves, write_all}
use caldera_sandbox.Socket.Server.{
  SocketServer, Config, create, start, listens, accept_round, send_world_frame, parse_unix_endpoint,
  unix_prefix,
}
use caldera_sandbox.Socket.Client.{SocketClient, FrameView, closed, latest}
use caldera_sandbox.Socket.Bytes.{IsWire, read_image-header_image}
use caldera_sandbox.Socket.Transfer.{write_all-prefix}
use caldera_sandbox.Socket.Roundtrip.{IsTyped}
use caldera_sandbox.Socket.Delivery.{send-latest, send-latest_verifies}

abbrev frame : WorldFrame
frame = record {
  timestamp_ns = 5;
  frame_id = 7;
  height_map = record { width = pos 2; height = pos 1; data_words = 0x3F800000 ∷ 258 ∷ [] };
  checksum = 0;
}

abbrev config : Config
config = record { endpoint = 117 ∷ 110 ∷ 105 ∷ 120 ∷ 58 ∷ 47 ∷ []; checksum_interval_ms = 10 }

abbrev serving : SocketServer
serving = record {
  config = config;
  listening = true;
  client = true;
  running = true;
  last_checksum_compute_ns = 0;
  uds_path = 47 ∷ [];
}

-- Starting and accepting leads there.
reached : accept_round true (start listens (create config)) ≡ serving
unfolding accept_round start create parse_unix_endpoint
reached = refl

abbrev polling : SocketClient
polling = record closed { connected = true }

-- Three bytes at a time.
abbrev calls : List Call
calls = replicate 60 (moves 2)

typed : IsTyped frame
typed = record {
  frame_id = omega arith;
  timestamp_ns = omega arith;
  checksum = omega arith;
  size = omega arith;
  words = (omega arith, (omega arith, tt));
}

send-latest_example :
    (sent : List ℕ) × (s' : SocketServer) × (v : FrameView) × (c' : SocketClient) × (rest : List
      Call)
    × (send_world_frame calls 9 frame serving ≡ some (sent, s'))
    × (s'.client ≡ true)
    × (latest true calls (sent ++ (67 ∷ [])) polling ≡ some (some v, c', rest, 67 ∷ []))
    × (c'.connected ≡ true)
    × (v.frame_id ≡ 7)
    × (v.timestamp_ns ≡ 5)
    × (v.width ≡ 2)
    × (v.height ≡ 1)
    × (v.data_words ≡ (0x3F800000 ∷ 258 ∷ []))
send-latest_example =
    send-latest true calls calls 9 frame (67 ∷ []) serving polling typed refl refl refl tt tt
      (omega arith) (omega arith)

send-latest_verifies_example :
    (sent : List ℕ) × (s' : SocketServer) × (v : FrameView) × (c' : SocketClient) × (rest : List
      Call)
    × (send_world_frame calls 9 frame serving ≡ some (sent, s'))
    × (latest true calls (sent ++ []) polling ≡ some (some v, c', rest, []))
    × (v.checksum_valid ≡ true)
send-latest_verifies_example =
    send-latest_verifies true calls calls 9 frame [] serving polling typed refl refl refl tt tt
      (omega arith) (omega arith) (inl refl)

write_all-prefix_example :
    (ok : Bool) × (sent : List ℕ) × (rest : List Call) × (lost : List ℕ) × (write_all
        (moves 0 ∷ fails ∷ [])
        (1 ∷ 2 ∷ [])
      ≡ some (ok, sent, rest))
    × (sent ++ lost ≡ (1 ∷ 2 ∷ []))
    × ((ok ≡ false) ⊎ (lost ≡ []))
write_all-prefix_example = write_all-prefix (moves 0 ∷ fails ∷ []) (1 ∷ 2 ∷ []) (omega arith)

abbrev header : WireHeader
header = record {
  magic = wire_magic;
  version = 1;
  header_bytes = 44;
  frame_id = 0x123456789A;
  timestamp_ns = 3;
  width = 640;
  height = 480;
  float_count = 307200;
  checksum = 0xCBF43926;
  checksum_algorithm = 1;
}

header-IsWire : IsWire header
header-IsWire = record {
  magic = refl;
  version = omega arith;
  header_bytes = omega arith;
  frame_id = omega arith;
  timestamp_ns = omega arith;
  width = omega arith;
  height = omega arith;
  float_count = omega arith;
  checksum = omega arith;
  checksum_algorithm = omega arith;
}

read_image-header_image_example : read_image (header_image header) ≡ header
read_image-header_image_example = read_image-header_image header header-IsWire

-- A path of 108 characters.
abbrev long_path : SocketServer
long_path = record serving {
  config = record { endpoint = unix_prefix ++ replicate 108 97; checksum_interval_ms = 0 };
  listening = false;
  client = false;
  running = false;
  uds_path = [];
}
