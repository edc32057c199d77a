-- ===== src/Socket/Delivery.antt =====
-- Sending and polling together: the identity, the payload and the checksum of a frame arrive.
use caldera_sandbox.Base.{
  ℕ, ◌+◌, ◌*◌, ◌≤◌, ◌≡◌, refl, ap, ◌∙◌, Bool, true, false, ◌⊎◌, inl, inr, some, List, [], ◌++◌,
  arith, length, ◌==◌, if◌then◌else◌, Bool-cases, ltb, not, ◌&&◌,
}
use caldera_sandbox.Base.Int.{to_u32}
use caldera_sandbox.World.{WorldFrame}
use caldera_sandbox.Checksum.{crc32}
use caldera_sandbox.Socket.Wire.{WireHeader, wire_size}
use caldera_sandbox.Socket.Stream.{Call}
use caldera_sandbox.Socket.Server.{
  SocketServer, choose_checksum, wire_header, send_bytes, send_world_frame,
}
use caldera_sandbox.Socket.Client.{SocketClient, FrameView, observe_frame, latest}
use caldera_sandbox.Socket.Transfer.{IsSteady}
use caldera_sandbox.Socket.Roundtrip.{
  IsTyped, frame_image, choose_checksum-lt, send_bytes_steady, latest_steady,
}

-- The server's state after a frame.
abbrev checked_at : ℕ → WorldFrame → SocketServer → SocketServer
checked_at now frame s = record s { last_checksum_compute_ns = (choose_checksum s frame now).1 }

send_steady :
    (calls : List Call) (now : ℕ) (frame : WorldFrame) (s : SocketServer)
    → s.running ≡ true
    → s.client ≡ true
    → IsSteady calls
    → wire_size + length frame.height_map.data_words * 4 ≤ length calls
    → send_world_frame calls now frame s
      ≡ some (frame_image frame (choose_checksum s frame now).0, checked_at now frame s)
unfolding send_world_frame
send_steady calls now frame s on attached steady enough =
    let cs = (choose_checksum s frame now).0 in
    let ws = frame.height_map.data_words in
    let both : (s.running && s.client) ≡ true = rw (on, attached) refl in
    ap
      (λ b.
        if b
        then send_bytes calls (wire_header frame cs) ws (checked_at now frame s)
        else some ([], s))
      both
    ∙ send_bytes_steady calls frame cs (checked_at now frame s) steady enough

observe_frame-fields :
    (verify : Bool) (h : WireHeader) (ws : List ℕ) (c : SocketClient)
    → let (v, c') = observe_frame verify h ws c in
      (c'.connected ≡ c.connected)
      × (v.frame_id ≡ h.frame_id)
      × (v.timestamp_ns ≡ h.timestamp_ns)
      × (v.width ≡ h.width)
      × (v.height ≡ h.height)
      × (v.data_words ≡ ws)
unfolding observe_frame
observe_frame-fields verify h ws c =
    elim (Bool-cases
      (verify && (h.checksum_algorithm == 1) && not (h.checksum == 0) && ltb 0 h.float_count)) [
        | inl e ↦ rw e (refl, refl, refl, refl, refl, refl)
        | inr e ↦ rw e (refl, refl, refl, refl, refl, refl)
      ]

observe_frame-valid :
    (verify : Bool) (h : WireHeader) (ws : List ℕ) (c : SocketClient)
    → (h.checksum ≡ 0) ⊎ (h.checksum ≡ crc32 ws)
    → (observe_frame verify h ws c).0.checksum_valid ≡ true
unfolding observe_frame
observe_frame-valid verify h ws c right =
    elim (Bool-cases
      (verify && (h.checksum_algorithm == 1) && not (h.checksum == 0) && ltb 0 h.float_count)) [
        | inl e ↦ rw e (matching h.checksum (crc32 ws) right (ground (arith, e)))
        | inr e ↦ rw e refl
      ]
  where
    matching : (cs crc : ℕ) → (cs ≡ 0) ⊎ (cs ≡ crc) → (cs == 0) ≡ false → (crc == cs) ≡ true
    matching cs crc either some_sum = ground arith

chosen-right :
    (s : SocketServer) (frame : WorldFrame) (now : ℕ)
    → (frame.checksum ≡ 0) ⊎ (frame.checksum ≡ crc32 frame.height_map.data_words)
    → let cs = (choose_checksum s frame now).0 in
      (cs ≡ 0) ⊎ (cs ≡ crc32 frame.height_map.data_words)
unfolding choose_checksum
chosen-right s frame now right = ground (arith, right)

-- When server and client are connected, no call fails on either side and there is a call for each byte,
-- a frame whose integers have their widths is sent whole, and the client stays attached. A connected
-- client that polls a stream beginning with it gets a view with the frame's identity, size and payload,
-- stays connected, and is left at the first byte after it.
pub send-latest :
    (verify : Bool) (calls recvs : List Call) (now : ℕ) (frame : WorldFrame) (later : List ℕ)
    (s : SocketServer) (c : SocketClient)
    → IsTyped frame
    → s.running ≡ true
    → s.client ≡ true
    → c.connected ≡ true
    → IsSteady calls
    → IsSteady recvs
    → wire_size + length frame.height_map.data_words * 4 ≤ length calls
    → wire_size + length frame.height_map.data_words * 4 ≤ length recvs
    → (sent : List ℕ) × (s' : SocketServer) × (v : FrameView) × (c' : SocketClient) × (rest : List
        Call)
      × (send_world_frame calls now frame s ≡ some (sent, s'))
      × (s'.client ≡ true)
      × (latest verify recvs (sent ++ later) c ≡ some (some v, c', rest, later))
      × (c'.connected ≡ true)
      × (v.frame_id ≡ frame.frame_id)
      × (v.timestamp_ns ≡ frame.timestamp_ns)
      × (v.width ≡ to_u32 frame.height_map.width)
      × (v.height ≡ to_u32 frame.height_map.height)
      × (v.data_words ≡ frame.height_map.data_words)
unfolding wire_header
send-latest verify calls recvs now frame later s c typed on attached connected steady steady' enough
      enough' =
    let (cs, last) = choose_checksum s frame now in
    let h = wire_header frame cs in
    let ws = frame.height_map.data_words in
    let (rest, got) =
      latest_steady verify recvs frame cs later c typed
        (choose_checksum-lt s frame now typed.checksum) connected steady' enough' in
    let (open', id, ts, w, ht, payload) = observe_frame-fields verify h ws c in
    (
      frame_image frame cs,
      checked_at now frame s,
      (observe_frame verify h ws c).0,
      (observe_frame verify h ws c).1,
      rest,
      send_steady calls now frame s on attached steady enough,
      attached,
      got,
      open' ∙ connected,
      id,
      ts,
      w,
      ht,
      payload,
    )

-- When server and client are connected, no call fails on either side and there is a call for each byte, a
-- frame whose integers have their widths, and that comes with no checksum or with the CRC32 of its payload,
-- is sent, and the connected client that polls a stream beginning with it gets a view that passes its
-- verification, whatever the server's checksum interval.
pub send-latest_verifies :
    (verify : Bool) (calls recvs : List Call) (now : ℕ) (frame : WorldFrame) (later : List ℕ)
    (s : SocketServer) (c : SocketClient)
    → IsTyped frame
    → s.running ≡ true
    → s.client ≡ true
    → c.connected ≡ true
    → IsSteady calls
    → IsSteady recvs
    → wire_size + length frame.height_map.data_words * 4 ≤ length calls
    → wire_size + length frame.height_map.data_words * 4 ≤ length recvs
    → (frame.checksum ≡ 0) ⊎ (frame.checksum ≡ crc32 frame.height_map.data_words)
    → (sent : List ℕ) × (s' : SocketServer) × (v : FrameView) × (c' : SocketClient) × (rest : List
        Call)
      × (send_world_frame calls now frame s ≡ some (sent, s'))
      × (latest verify recvs (sent ++ later) c ≡ some (some v, c', rest, later))
      × (v.checksum_valid ≡ true)
unfolding wire_header
send-latest_verifies verify calls recvs now frame later s c typed on attached connected steady
      steady' enough enough' right =
    let (cs, last) = choose_checksum s frame now in
    let h = wire_header frame cs in
    let ws = frame.height_map.data_words in
    let (rest, got) =
      latest_steady verify recvs frame cs later c typed
        (choose_checksum-lt s frame now typed.checksum) connected steady' enough' in
    (
      frame_image frame cs,
      checked_at now frame s,
      (observe_frame verify h ws c).0,
      (observe_frame verify h ws c).1,
      rest,
      send_steady calls now frame s on attached steady enough,
      got,
      observe_frame-valid verify h ws c (chosen-right s frame now right),
    )
