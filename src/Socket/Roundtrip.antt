-- ===== src/Socket/Roundtrip.antt =====
-- A frame on its way through the socket: what the client receives is what the server was given.
use caldera_sandbox.Base.{
  ℕ, ◌+◌, ◌*◌, ◌≤◌, ◌<◌, ◌≡◌, refl, ap, sym, ◌∙◌, Bool, true, none, some, List, [], ◌++◌, arith,
  length, All, append_assoc, if◌then◌else◌, ◌>>=◌, append-nil,
}
use caldera_sandbox.Base.Int.{to_u32, ℤ, pos, negsuc}
use caldera_sandbox.Base.Words.{u32_mod, u64_mod}
use caldera_sandbox.World.{WorldFrame}
use caldera_sandbox.Checksum.Range.{crc32-lt}
use caldera_sandbox.Socket.Wire.{
  WireHeader, wire_size, header_image, read_image, words_image, read_words,
}
use caldera_sandbox.Socket.Stream.{Call, read_exact}
use caldera_sandbox.Socket.Server.{
  SocketServer, choose_checksum, wire_header, send_payload, send_bytes,
}
use caldera_sandbox.Socket.Client.{
  SocketClient, accepts_header, observe_frame, finish_frame, read_frame, latest, disconnect,
}
use caldera_sandbox.Socket.Bytes.{
  IsWire, read_image-header_image, length-header_image, length-words_image, read_words-words_image,
}
use caldera_sandbox.Socket.Transfer.{IsSteady, write_all-IsSteady, read_exact-IsSteady}

-- The integers of the frame are of the widths that the code gives them, and 32 bits count its values.
pub record IsTyped (frame : WorldFrame) : Type 0 where
  pub frame_id : frame.frame_id < u64_mod
  pub timestamp_ns : frame.timestamp_ns < u64_mod
  pub checksum : frame.checksum < u32_mod
  pub size : length frame.height_map.data_words < u32_mod
  pub words : All (λ w. w < u32_mod) frame.height_map.data_words

-- What a frame with checksum `cs` is on the wire.
abbrev pub frame_image : WorldFrame → ℕ → List ℕ
frame_image frame cs =
    header_image (wire_header frame cs) ++ words_image frame.height_map.data_words

to_u32-lt : (z : ℤ) → to_u32 z < u32_mod
to_u32-lt (pos n) = omega arith
to_u32-lt (negsuc n) = omega arith

pub choose_checksum-lt :
    (s : SocketServer) (frame : WorldFrame) (now : ℕ)
    → frame.checksum < u32_mod
    → (choose_checksum s frame now).0 < u32_mod
unfolding choose_checksum
choose_checksum-lt s frame now h = ground (arith, h, crc32-lt frame.height_map.data_words)

wire_header-IsWire :
    (frame : WorldFrame) (cs : ℕ) → IsTyped frame → cs < u32_mod → IsWire (wire_header frame cs)
unfolding wire_header
wire_header-IsWire frame cs typed h = record {
  magic = refl;
  version = omega arith;
  header_bytes = omega arith;
  frame_id = typed.frame_id;
  timestamp_ns = typed.timestamp_ns;
  width = to_u32-lt frame.height_map.width;
  height = to_u32-lt frame.height_map.height;
  float_count = omega arith;
  checksum = h;
  checksum_algorithm = ground arith;
}

header-size :
    (frame : WorldFrame) (cs : ℕ) → length (header_image (wire_header frame cs)) ≡ wire_size
unfolding wire_header
header-size frame cs = length-header_image (wire_header frame cs) refl

pub send_bytes_steady :
    (calls : List Call) (frame : WorldFrame) (cs : ℕ) (s : SocketServer)
    → IsSteady calls
    → wire_size + length frame.height_map.data_words * 4 ≤ length calls
    → send_bytes calls (wire_header frame cs) frame.height_map.data_words s
      ≡ some (frame_image frame cs, s)
unfolding send_bytes send_payload
send_bytes_steady calls frame cs s steady enough =
    let ws = frame.height_map.data_words in
    let hdr = header_image (wire_header frame cs) in
    let size : length hdr ≡ 44 = header-size frame cs in
    let (rest, ran, steady', few) = write_all-IsSteady calls hdr steady (omega (arith, size)) in
    let (rest', ran', _, _) =
      write_all-IsSteady rest (words_image ws) steady'
        (omega (arith, size, few, length-words_image ws)) in
    rw (ran, ran') refl

latest-true :
    (verify : Bool) (calls : List Call) (stream : List ℕ) (c : SocketClient)
    (r : Bool × List ℕ × List Call × List ℕ)
    → c.connected ≡ true
    → read_exact calls wire_size stream ≡ some r
    → latest verify calls stream c ≡ read_frame verify c r
unfolding latest
latest-true verify calls stream c r on ran =
    ap
      (λ b.
        if b
        then read_exact calls wire_size stream >>= read_frame verify c
        else some (none, c, calls, stream))
      on
    ∙ ap (λ m. m >>= read_frame verify c) ran

read_frame-true :
    (verify : Bool) (c : SocketClient) (h : WireHeader) (bytes : List ℕ) (calls : List Call)
    (stream : List ℕ) (r : Bool × List ℕ × List Call × List ℕ)
    → read_image bytes ≡ h
    → accepts_header h ≡ true
    → read_exact calls (h.float_count * 4) stream ≡ some r
    → read_frame verify c (true, bytes, calls, stream) ≡ finish_frame verify h c r
unfolding read_frame
read_frame-true verify c h bytes calls stream r same good ran =
    ap
      (λ g.
        if accepts_header g
        then read_exact calls (g.float_count * 4) stream >>= finish_frame verify g c
        else some (none, disconnect c, calls, stream))
      same
    ∙ ap
        (λ b.
          if b
          then read_exact calls (h.float_count * 4) stream >>= finish_frame verify h c
          else some (none, disconnect c, calls, stream))
        good
    ∙ ap (λ m. m >>= finish_frame verify h c) ran

finish_frame-true :
    (verify : Bool) (c : SocketClient) (h : WireHeader) (bytes ws : List ℕ) (calls : List Call)
    (stream : List ℕ)
    → read_words h.float_count bytes ≡ ws
    → finish_frame verify h c (true, bytes, calls, stream)
      ≡ some (some (observe_frame verify h ws c).0, (observe_frame verify h ws c).1, calls, stream)
unfolding finish_frame
finish_frame-true verify c h bytes ws calls stream e =
    ap
      (λ w.
        some (some (observe_frame verify h w c).0, (observe_frame verify h w c).1, calls, stream))
      e

accepts-wire_header : (frame : WorldFrame) (cs : ℕ) → accepts_header (wire_header frame cs) ≡ true
unfolding accepts_header wire_header
accepts-wire_header frame cs = refl

wire_header-count :
    (frame : WorldFrame) (cs : ℕ)
    → length frame.height_map.data_words < u32_mod
    → (wire_header frame cs).float_count ≡ length frame.height_map.data_words
unfolding wire_header
wire_header-count frame cs h = omega arith

pub latest_steady :
    (verify : Bool) (calls : List Call) (frame : WorldFrame) (cs : ℕ) (later : List ℕ)
    (c : SocketClient)
    → IsTyped frame
    → cs < u32_mod
    → c.connected ≡ true
    → IsSteady calls
    → wire_size + length frame.height_map.data_words * 4 ≤ length calls
    → (rest : List Call) × (latest verify calls (frame_image frame cs ++ later) c ≡ (
        let (v, c') = observe_frame verify (wire_header frame cs) frame.height_map.data_words c in
        some (some v, c', rest, later)))
latest_steady verify calls frame cs later c typed cs_lt on steady enough =
    let ws = frame.height_map.data_words in
    let h = wire_header frame cs in
    let hdr = header_image h in
    let body = words_image ws in
    let count = wire_header-count frame cs typed.size in
    let size = header-size frame cs in
    let (rest, got, steady', few) =
      read_exact-IsSteady calls hdr (body ++ later) steady (omega (arith, size)) in
    let (rest', got', _, _) =
      read_exact-IsSteady rest body later steady'
        (omega (arith, size, few, length-words_image ws)) in
    let whole : hdr ++ (body ++ later) ≡ (hdr ++ body) ++ later =
      sym (append_assoc hdr body later) in
    let first : read_exact calls wire_size ((hdr ++ body) ++ later)
        ≡ some (true, hdr, rest, body ++ later) =
      rw (sym whole, sym size) got in
    let second : read_exact rest (h.float_count * 4) (body ++ later)
        ≡ some (true, body, rest', later) =
      ap (λ n. read_exact rest n (body ++ later))
        (ap (λ n. n * 4) count ∙ sym (length-words_image ws))
      ∙ got' in
    let words : read_words h.float_count body ≡ ws =
      ap (λ n. read_words n body) count
      ∙ ap (read_words (length ws)) (sym (append-nil body))
      ∙ read_words-words_image ws [] typed.words in
    (
      rest',
      latest-true verify calls (frame_image frame cs ++ later) c _ on first
          ∙ read_frame-true verify c h hdr rest (body ++ later) _
              (read_image-header_image h (wire_header-IsWire frame cs typed cs_lt))
              (accepts-wire_header frame cs) second
          ∙ finish_frame-true verify c h body ws rest' later words,
    )
