-- ===== src/Shm/Client.antt =====
-- backend/src/transport/SharedMemoryWorldFrameClient.{h,cpp}: a reader with statistics.
use caldera_sandbox.Base.{
  ℕ, Bool, true, false, ◌&&◌, ◌||◌, not, Option, none, some, List, [], ◌∷◌, ltb, ◌==◌,
  if◌then◌else◌,
}
use caldera_sandbox.Base.Words.{inc64}
use caldera_sandbox.Shm.Segment.{Segment}
use caldera_sandbox.Shm.Reader.{
  ShmReader, FrameView, OpenAttempt, closed_reader, open_reader, close_reader, latest,
  verify_checksum,
}

-- `IWorldFrameClient::Stats`.
pub record Stats : Type 0 where
  pub frames_observed : ℕ
  pub distinct_frames : ℕ
  pub checksum_present : ℕ
  pub checksum_verified : ℕ
  pub checksum_mismatch : ℕ
  pub last_frame_id : ℕ

abbrev pub no_stats : Stats
no_stats = record {
  frames_observed = 0;
  distinct_frames = 0;
  checksum_present = 0;
  checksum_verified = 0;
  checksum_mismatch = 0;
  last_frame_id = 0;
}

-- The capacity that the client assumes stands in its configuration.
pub record ShmClient : Type 0 where
  pub max_width : ℕ
  pub max_height : ℕ
  pub reader : ShmReader
  pub stats : Stats
  pub connected : Bool

unfoldable pub create : ℕ → ℕ → ShmClient
create w h = record {
  max_width = w;
  max_height = h;
  reader = closed_reader;
  stats = no_stats;
  connected = false;
}

-- The loop of `connect`: each round has an outcome of `open` and the clock after the sleep. `none` is
-- a schedule that ends before the loop does.
unfoldable pub connect_loop : ℕ → ℕ → List (OpenAttempt × ℕ) → ShmClient → Option (Bool × ShmClient)
unfolding open_reader
connect_loop timeout_ms deadline [] c = none
connect_loop timeout_ms deadline ((os, now) ∷ rounds) c =
    let (opened, r) = open_reader os c.max_width c.max_height c.reader in
    let more = connect_loop timeout_ms deadline rounds (record c { reader = r }) in
    if opened
    then some (true, record c { reader = r; connected = true })
    else (if timeout_ms == 0 || not (ltb now deadline)
        then some (false, record c { reader = r })
        else more)

unfoldable pub connect : ℕ → ℕ → List (OpenAttempt × ℕ) → ShmClient → Option (Bool × ShmClient)
unfolding connect_loop
connect timeout_ms deadline rounds c =
    if c.connected then some (true, c) else connect_loop timeout_ms deadline rounds c

unfoldable pub disconnect : ShmClient → ShmClient
unfolding close_reader
disconnect c =
    if c.connected then record c { reader = close_reader c.reader; connected = false } else c

-- `++frames_observed`, and a new frame id is a distinct frame.
unfoldable pub count_frame : ℕ → Stats → Stats
count_frame id st =
    let seen = record st { frames_observed = inc64 st.frames_observed } in
    if st.distinct_frames == 0 || not (id == st.last_frame_id)
    then record seen { distinct_frames = inc64 st.distinct_frames; last_frame_id = id }
    else seen

-- The statistics of one verification, whose result is `ok`.
unfoldable pub count_check : Bool → Stats → Stats
count_check ok st =
    if ok
    then record st { checksum_verified = inc64 st.checksum_verified }
    else record st { checksum_mismatch = inc64 st.checksum_mismatch }

unfoldable pub latest_checked : Bool → FrameView → Segment → ShmClient → FrameView × ShmClient
unfolding count_frame count_check
latest_checked verify v m c =
    let has_checksum = v.checksum_algorithm == 1 && not (v.checksum == 0) in
    let seen = count_frame v.frame_id c.stats in
    let present =
      if has_checksum
      then record seen { checksum_present = inc64 seen.checksum_present }
      else seen in
    let ok = (verify_checksum v m).0 in
    if verify && has_checksum
    then (record v { checksum_valid = ok }, record c { stats = count_check ok present })
    else (v, record c { stats = present })

unfoldable pub latest_frame : Bool → Segment → ShmClient → Option FrameView × ShmClient
unfolding latest_checked
latest_frame verify m c = elim (latest c.reader m) [
  | none ↦ (none, c)
  | some v ↦ (let (out, c') = latest_checked verify v m c in (some out, c'))
]
