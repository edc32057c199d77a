-- ===== src/Shm/Segment.antt =====
-- backend/src/transport/SharedMemoryLayout.h, and the segment as memory: a header, then two buffers
-- of `float` words. A write to it is a `Store`; one that leaves the mapping is a fault (`none`).
use caldera_sandbox.Base.{
  ℕ, zero, suc, ◌+◌, Option, none, some, List, [], ◌∷◌, ltb, ◌==◌, if◌then◌else◌, ◌>>=◌, length,
  set, take, drop,
}

pub record BufferMeta : Type 0 where
  pub frame_id : ℕ
  pub timestamp_ns : ℕ
  pub width : ℕ
  pub height : ℕ
  pub float_count : ℕ
  pub checksum : ℕ
  pub ready : ℕ

-- `buffers[0]` and `buffers[1]`.
pub record ShmHeader : Type 0 where
  pub magic : ℕ
  pub version : ℕ
  pub active_index : ℕ
  pub checksum_algorithm : ℕ
  pub buffer0 : BufferMeta
  pub buffer1 : BufferMeta

pub record Segment : Type 0 where
  pub header : ShmHeader
  pub words : List ℕ

abbrev pub buffer : ShmHeader → ℕ → BufferMeta
buffer hdr i = if i == 0 then hdr.buffer0 else hdr.buffer1

abbrev pub empty_meta : BufferMeta
empty_meta = record {
  frame_id = 0;
  timestamp_ns = 0;
  width = 0;
  height = 0;
  float_count = 0;
  checksum = 0;
  ready = 0;
}

-- The writes of the producer, one by one: to a field of the metadata of buffer `i`, a word of the
-- payload, and the index that readers follow.
pub data Store : Type 0 where
  meta : ℕ → (BufferMeta → BufferMeta) → Store
  word : ℕ → ℕ → Store
  activate : ℕ → Store

-- The array of buffers has two entries.
unfoldable pub store_meta : ℕ → (BufferMeta → BufferMeta) → ShmHeader → Option ShmHeader
store_meta zero f hdr = some (record hdr { buffer0 = f hdr.buffer0 })
store_meta (suc zero) f hdr = some (record hdr { buffer1 = f hdr.buffer1 })
store_meta (suc (suc i)) f hdr = none

unfoldable pub store : Store → Segment → Option Segment
unfolding store_meta
store (meta i f) m = elim (store_meta i f m.header) [
  | none ↦ none
  | some hdr ↦ some (record m { header = hdr })
]
store (word off v) m =
    if ltb off (length m.words) then some (record m { words = set m.words off v }) else none
store (activate i) m =
    let hdr = m.header in some (record m { header = record hdr { active_index = i } })

unfoldable pub run_stores : List Store → Segment → Option Segment
unfolding store
run_stores [] m = some m
run_stores (s ∷ ss) m = store s m >>= run_stores ss

-- `memcpy` of a payload to the words from `off` on.
unfoldable pub copy_words : ℕ → List ℕ → List Store
copy_words off [] = []
copy_words off (w ∷ ws) = word off w ∷ copy_words (off + 1) ws

-- The `n` words from `off` on.
abbrev pub slice : ℕ → ℕ → List ℕ → List ℕ
slice off n ws = take n (drop off ws)
