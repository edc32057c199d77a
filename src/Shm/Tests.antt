-- ===== src/Shm/Tests.antt =====
-- Runs of the shared-memory transport, and its theorems at concrete inputs.
use caldera_sandbox.Base.{◌≢◌, ◌≡◌, refl, ◌⊎◌, inl, true, false, none, some, [], ◌∷◌, arith, take}
use caldera_sandbox.Base.Int.{pos}
use caldera_sandbox.Base.Fixed.{Fixed, fixed_float}
use caldera_sandbox.World.{WorldFrame}
use caldera_sandbox.Shm.Segment.{Segment, empty_meta, run_stores, copy_words}
use caldera_sandbox.Shm.Server.{
  Server, Config, maps, create, start, choose_checksum, shm_magic, exceeds,
}
use caldera_sandbox.Shm.Send.{publish_stores, send_world_frame}
use caldera_sandbox.Shm.Reader.{
  ShmReader, FrameView, OpenAttempt, latest, verify_checksum, open_reader, observe, closed_reader,
}
use caldera_sandbox.Shm.Reader
use caldera_sandbox.Shm.Client
use caldera_sandbox.Shm.Client.{latest_frame, latest_checked}
use caldera_sandbox.Shm.Atomic.{IsValid, publish_atomic, published_view}
use caldera_sandbox.Shm.Lifecycle.{IsReady}
use caldera_sandbox.Shm.Delivery.{Accounted, send-IsReady, send_delivers}
use caldera_sandbox.Shm.Checks.{IsCounted, latest_frame-IsCounted, send_verifies}
use caldera_sandbox.Shm.Refused.{verify_checksum-changed}
use caldera_sandbox.Checksum.{crc32}
use caldera_sandbox.Shm.Faults.{open_reader-retry}

abbrev config : Config
config = record { max_width = 2; max_height = 2; checksum_interval_ms = 0 }

abbrev pub fresh : Segment
fresh = record {
  header = record {
    magic = shm_magic;
    version = 2;
    active_index = 0;
    checksum_algorithm = 1;
    buffer0 = empty_meta;
    buffer1 = empty_meta;
  };
  words = 0 ∷ 0 ∷ 0 ∷ 0 ∷ 0 ∷ 0 ∷ 0 ∷ 0 ∷ [];
}

abbrev pub live : Server Fixed
live = record {
  config = config;
  fd_open = true;
  mapping = some fresh;
  running = true;
  last_checksum_compute_ns = 0;
  stats = record {
    frames_attempted = 0;
    frames_published = 0;
    frames_dropped_capacity = 0;
    bytes_written = 0;
    last_publish_fps = some (pos 0);
  };
  last_publish_ts_ns = 0;
}

abbrev idle : Server Fixed
idle = record live { running = false; mapping = none; fd_open = false }

abbrev frame : WorldFrame
frame = record {
  timestamp_ns = 77;
  frame_id = 5;
  height_map = record { width = pos 2; height = pos 2; data_words = 11 ∷ 12 ∷ 13 ∷ 14 ∷ [] };
  checksum = 0;
}

-- Two layers of a 2 x 2 map under the dimensions of one.
abbrev double_frame : WorldFrame
double_frame = record frame {
  height_map = record {
    width = pos 2;
    height = pos 2;
    data_words = 1 ∷ 2 ∷ 3 ∷ 4 ∷ 5 ∷ 6 ∷ 7 ∷ 8 ∷ [];
  };
}

abbrev pub reader : ShmReader
reader = record { capacity = 4; fd_open = true; mapped = true }

start_runs : start (maps fresh) (create {D = Fixed} config) ≡ live
unfolding start create
start_runs = refl

fresh-IsValid : IsValid 4 fresh
fresh-IsValid = omega arith

pub live-IsReady : IsReady live
live-IsReady = record { within = omega arith; live = fresh-IsValid; counted = omega arith }

idle-IsReady : IsReady idle
idle-IsReady = record { within = omega arith; live = tt; counted = omega arith }

-- Twelve of the thirteen writes, and all of them.
publish_atomic_example :
    (m' : Segment) × (run_stores (take 12 (publish_stores 4 1 frame 9)) fresh ≡ some m')
    × (observe reader m' ≡ observe reader fresh)
unfolding publish_stores copy_words observe
publish_atomic_example =
    publish_atomic reader 4 fresh frame 9 12 fresh-IsValid refl refl (omega arith)

send-IsReady_example :
    (s' : Server Fixed) × (send_world_frame (maps fresh) 100 200 frame live ≡ some s')
    × IsReady s'
    × (s'.running ≡ true)
    × Accounted frame live s'
send-IsReady_example = send-IsReady (maps fresh) 100 200 frame live live-IsReady refl

send_delivers_example :
    (s' : Server Fixed) × (m' : Segment) × (send_world_frame (maps fresh) 100 200 frame live
      ≡ some s')
    × (s'.mapping ≡ some m')
    × (observe reader m' ≡ some (published_view reader fresh frame 0, 11 ∷ 12 ∷ 13 ∷ 14 ∷ []))
unfolding exceeds choose_checksum
send_delivers_example =
    send_delivers (maps fresh) 100 200 frame live reader fresh live-IsReady refl refl refl refl refl
      refl

send_verifies_example :
    (v : FrameView) × (s' : Server Fixed) × (m' : Segment) × (send_world_frame
        (maps fresh)
        100
        200
        frame
        live
      ≡ some s')
    × (s'.mapping ≡ some m')
    × (latest reader m' ≡ some v)
    × (verify_checksum v m' ≡ (true, v))
unfolding exceeds
send_verifies_example =
    send_verifies (maps fresh) 100 200 frame live reader fresh live-IsReady refl refl refl refl refl
      refl (inl refl)

abbrev client : Client.ShmClient
client = record {
  max_width = 2;
  max_height = 2;
  reader = reader;
  stats = record Client.no_stats { frames_observed = 3; distinct_frames = 2; checksum_present = 1 };
  connected = true;
}

latest_frame-IsCounted_example :
    let (out, c') = latest_frame true fresh client in
    IsCounted c'.stats
    × (((latest reader fresh ≡ none) × (out ≡ none) × (c' ≡ client))
        ⊎ ((v : FrameView) × (latest reader fresh ≡ some v)
            × (out ≡ some (latest_checked true v fresh client).0)
            × (c'.stats.frames_observed ≡ 4)
            × (c'.stats.last_frame_id ≡ v.frame_id)))
latest_frame-IsCounted_example =
    latest_frame-IsCounted true fresh client (omega arith) (omega arith)

abbrev wide : Config
wide = record { max_width = 2560; max_height = 1440; checksum_interval_ms = 0 }

abbrev foreign : Segment
foreign = record fresh { header = record (fresh.header) { magic = 0 } }

open_reader-retry_example :
    let (opened, r') = open_reader (Reader.maps foreign) 2 2 closed_reader in
    (opened ≡ false) × (open_reader OpenAttempt.open_fails 2 2 r' ≡ (true, r'))
open_reader-retry_example =
    open_reader-retry OpenAttempt.open_fails 2 2 foreign closed_reader refl (inl (omega arith))

-- One bit of the second value is changed.
abbrev changed : Segment
changed = record fresh { words = 1 ∷ 2 ∷ 0 ∷ 0 ∷ 0 ∷ 0 ∷ 0 ∷ 0 ∷ [] }

abbrev signed : FrameView
signed = record {
  frame_id = 1;
  timestamp_ns = 5;
  width = 2;
  height = 1;
  offset = 0;
  float_count = 2;
  checksum = crc32 (1 ∷ 3 ∷ []);
  checksum_algorithm = 1;
  checksum_valid = true;
}

signed_some : signed.checksum ≢ 0
unfolding crc32
signed_some e = cc

verify_checksum-changed_example :
    verify_checksum signed changed ≡ (false, record signed { checksum_valid = false })
verify_checksum-changed_example =
    verify_checksum-changed signed changed (1 ∷ []) [] 3 2 (omega arith) (omega arith) (λ e. cc)
      refl signed_some (λ e. cc) refl refl
