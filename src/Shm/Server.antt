-- ===== src/Shm/Server.antt =====
-- backend/src/transport/SharedMemoryTransportServer.{h,cpp}: the single producer. The operating system's
-- answers and the readings of the steady clock are arguments; logging is left out.
use caldera_sandbox.Base.{
  ℕ, ◌*◌, Bool, true, false, ◌&&◌, ◌||◌, not, Option, none, some, List, [], ◌∷◌, ltb, leb, ◌==◌,
  if◌then◌else◌,
}
use caldera_sandbox.Base.Int.{pos, ltb_ℤ}
use caldera_sandbox.Base.Words.{sub64}
use caldera_sandbox.Base.Float.{Float}
use caldera_sandbox.World.{WorldFrame, HeightMap}
use caldera_sandbox.Checksum.{crc32}
use caldera_sandbox.Shm.Segment.{ShmHeader, Segment, empty_meta}

pub record Config : Type 0 where
  pub max_width : ℕ
  pub max_height : ℕ
  pub checksum_interval_ms : ℕ

-- `frames_verified` is never written, and is left out.
pub record Stats (D : Type 0) : Type 0 where
  pub frames_attempted : ℕ
  pub frames_published : ℕ
  pub frames_dropped_capacity : ℕ
  pub bytes_written : ℕ
  pub last_publish_fps : D

-- `fd_open` is `fd_ >= 0`.
pub record Server (D : Type 0) : Type 0 where
  pub config : Config
  pub fd_open : Bool
  pub mapping : Option Segment
  pub running : Bool
  pub last_checksum_compute_ns : ℕ
  pub stats : Stats D
  pub last_publish_ts_ns : ℕ

abbrev pub hard_max_width : ℕ
hard_max_width = 2048

abbrev pub hard_max_height : ℕ
hard_max_height = 2048

abbrev pub shm_magic : ℕ
shm_magic = 0x43414C44

-- `single_buffer_bytes_ / sizeof(float)`: the words of one buffer.
abbrev pub capacity : Config → ℕ
capacity c = c.max_width * c.max_height

-- How `shm_open`, `ftruncate` and `mmap` end; the last hands over what the segment holds.
pub data Attempt : Type 0 where
  open_fails truncate_fails map_fails : Attempt
  maps : Segment → Attempt

unfoldable pub clamp_config : Config → Config
clamp_config c = record c {
  max_width = if ltb hard_max_width c.max_width then hard_max_width else c.max_width;
  max_height = if ltb hard_max_height c.max_height then hard_max_height else c.max_height;
}

unfoldable pub init_header : ShmHeader
init_header = record {
  magic = shm_magic;
  version = 2;
  active_index = 0;
  checksum_algorithm = 1;
  buffer0 = empty_meta;
  buffer1 = empty_meta;
}

abbrev pub is_empty : List ℕ → Bool
is_empty [] = true
is_empty (_ ∷ _) = false

unfoldable pub exceeds : Config → HeightMap → Bool
exceeds c hm = ltb_ℤ (pos c.max_width) hm.width || ltb_ℤ (pos c.max_height) hm.height

module _ {D : Type 0} ⦃d : Float D⦄ where
  open d use {of_ℕ, ratio, add, mul, div, eq, lt}

  -- The constructor.
  unfoldable pub create : Config → Server D
  unfolding clamp_config
  create c = record {
    config = clamp_config c;
    fd_open = false;
    mapping = none;
    running = false;
    last_checksum_compute_ns = 0;
    stats = record {
      frames_attempted = 0;
      frames_published = 0;
      frames_dropped_capacity = 0;
      bytes_written = 0;
      last_publish_fps = ratio 0 1;
    };
    last_publish_ts_ns = 0;
  }

  attempt_map : Attempt → Server D → Bool × Server D
  unfolding init_header
  attempt_map open_fails s = (false, record s { fd_open = false })
  attempt_map truncate_fails s = (false, record s { fd_open = true })
  attempt_map map_fails s = (false, record s { fd_open = true })
  attempt_map (maps m) s =
      (true, record s { fd_open = true; mapping = some (record m { header = init_header }) })

  unfoldable pub ensure_mapped : Attempt → Server D → Bool × Server D
  unfolding attempt_map
  ensure_mapped os s = elim s.mapping [ none ↦ attempt_map os s | some m ↦ (true, s) ]

  unfoldable pub start : Attempt → Server D → Server D
  unfolding ensure_mapped
  start os s =
      if s.running
      then s
      else (let (mapped, s') = ensure_mapped os s in
          if mapped then record s' { running = true } else s')

  unfoldable pub stop : Server D → Server D
  stop s = if s.running then record s { running = false; mapping = none; fd_open = false } else s

  -- The checksum to publish, and the time of the last automatic one.
  unfoldable pub choose_checksum : Server D → WorldFrame → ℕ → ℕ × ℕ
  choose_checksum s frame now =
      if ltb 0 interval && need_auto && not (is_empty words)
      then (if last == 0 || leb (interval * 1_000_000) (sub64 now last)
          then (crc32 words, now)
          else (0, last))
      else (if need_auto && interval == 0 then (0, last) else (frame.checksum, last))
    where
      interval : ℕ
      interval = s.config.checksum_interval_ms

      last : ℕ
      last = s.last_checksum_compute_ns

      words : List ℕ
      words = frame.height_map.data_words

      need_auto : Bool
      need_auto = frame.checksum == 0

  unfoldable pub next_fps : Server D → ℕ → D
  next_fps s now = if last == 0 then fps else (if lt (ratio 0 1) dt then smoothed else fps)
    where
      last : ℕ
      last = s.last_publish_ts_ns

      fps : D
      fps = s.stats.last_publish_fps

      dt : D
      dt = div (of_ℕ (sub64 now last)) (of_ℕ 1_000_000_000)

      smoothed : D
      smoothed =
          let inst = div (ratio 1 1) dt in
          if eq fps (ratio 0 1) then inst else add (mul fps (ratio 8 10)) (mul inst (ratio 2 10))
