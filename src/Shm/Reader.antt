-- ===== src/Shm/Reader.antt =====
-- backend/src/transport/SharedMemoryReader.{h,cpp}: the reading side. The producer's segment is an
-- argument of each read, since the reader maps the same memory.
use caldera_sandbox.Base.{
  ℕ, ◌*◌, Bool, true, false, ◌&&◌, ◌||◌, not, Option, none, some, List, ltb, ◌==◌, if◌then◌else◌,
}
use caldera_sandbox.Checksum.{crc32}
use caldera_sandbox.Shm.Segment.{Segment, BufferMeta, buffer, slice}
use caldera_sandbox.Shm.Server.{shm_magic}

-- `offset` is the word at which `data` points.
pub record FrameView : Type 0 where
  pub frame_id : ℕ
  pub timestamp_ns : ℕ
  pub width : ℕ
  pub height : ℕ
  pub offset : ℕ
  pub float_count : ℕ
  pub checksum : ℕ
  pub checksum_algorithm : ℕ
  pub checksum_valid : Bool

-- `capacity` is `single_buffer_bytes_ / sizeof(float)`.
pub record ShmReader : Type 0 where
  pub capacity : ℕ
  pub fd_open : Bool
  pub mapped : Bool

abbrev pub closed_reader : ShmReader
closed_reader = record { capacity = 0; fd_open = false; mapped = false }

-- How `shm_open` and `mmap` end for a reader.
pub data OpenAttempt : Type 0 where
  open_fails map_fails : OpenAttempt
  maps : Segment → OpenAttempt

unfoldable pub open_reader : OpenAttempt → ℕ → ℕ → ShmReader → Bool × ShmReader
open_reader os max_width max_height r =
    if r.mapped
    then (true, r)
    else (let r' : ShmReader = record r { capacity = max_width * max_height } in
        elim os [
          | open_fails ↦ (false, record r' { fd_open = false })
          | map_fails ↦ (false, record r' { fd_open = true })
          | maps m ↦ (
            m.header.magic == shm_magic && m.header.version == 2,
            record r' { fd_open = true; mapped = true },
          )
        ])

unfoldable pub close_reader : ShmReader → ShmReader
close_reader r = record r { mapped = false; fd_open = false }

unfoldable pub view_of : BufferMeta → ℕ → ℕ → FrameView
view_of b offset algorithm = record {
  frame_id = b.frame_id;
  timestamp_ns = b.timestamp_ns;
  width = b.width;
  height = b.height;
  offset = offset;
  float_count = b.float_count;
  checksum = b.checksum;
  checksum_algorithm = algorithm;
  checksum_valid = true;
}

unfoldable pub latest : ShmReader → Segment → Option FrameView
unfolding view_of
latest r m =
    let idx = m.header.active_index in
    let b = buffer m.header idx in
    if not r.mapped || ltb 1 idx
    then none
    else (if b.ready == 1
        then some (view_of b (idx * r.capacity) m.header.checksum_algorithm)
        else none)

-- What `data[0 … float_count)` reads.
abbrev pub payload : FrameView → Segment → List ℕ
payload v m = slice v.offset v.float_count m.words

-- `data` of a view that `latest` made is never null.
unfoldable pub verify_checksum : FrameView → Segment → Bool × FrameView
verify_checksum v m =
    if v.checksum_algorithm == 0 || v.checksum == 0
    then (true, record v { checksum_valid = true })
    else (if v.float_count == 0
        then (false, record v { checksum_valid = false })
        else (if v.checksum_algorithm == 1
            then (let ok = crc32 (payload v m) == v.checksum in
                (ok, record v { checksum_valid = ok }))
            else (true, record v { checksum_valid = true })))

-- What a reader that polls now can see: the view, and the payload behind it.
unfoldable pub observe : ShmReader → Segment → Option (FrameView × List ℕ)
observe r m = elim (latest r m) [ none ↦ none | some v ↦ some (v, payload v m) ]
