-- ===== src/Shm/Publish.antt =====
-- What the writes of one publication do to the segment, at the end and on the way.
use caldera_sandbox.Base.{
  ℕ, zero, suc, ◌+◌, ◌*◌, ◌%◌, ◌≤◌, ◌<◌, ◌≡◌, ◌≢◌, refl, ◌∙◌, ◌⊎◌, some, List, [], ◌∷◌, arith,
  lt→ltb, length, All, set, length-set,
}
use caldera_sandbox.Base.Int.{to_u32}
use caldera_sandbox.Base.Words.{u32_mod}
use caldera_sandbox.World.{WorldFrame}
use caldera_sandbox.Shm.Segment.{
  BufferMeta, ShmHeader, Segment, buffer, Store, meta, word, activate, store_meta, store,
  run_stores, slice,
}
use caldera_sandbox.Shm.Memory.{blit, slice-set_ne, run_stores-copy_append}
use caldera_sandbox.Shm.Send.{publish_stores}

-- The metadata of a published frame.
abbrev pub published_meta : WorldFrame → ℕ → BufferMeta
published_meta frame cs =
    let hm = frame.height_map in
    record {
      frame_id = frame.frame_id;
      timestamp_ns = frame.timestamp_ns;
      width = to_u32 hm.width;
      height = to_u32 hm.height;
      float_count = length hm.data_words % u32_mod;
      checksum = cs;
      ready = 1;
    }

-- The header with buffer `i` published.
abbrev pub published_header : ℕ → BufferMeta → ShmHeader → ShmHeader
published_header zero b hdr = record hdr { active_index = 0; buffer0 = b }
published_header (suc i) b hdr = record hdr { active_index = 1; buffer1 = b }

-- The segment after a complete publication to buffer `i`.
abbrev pub published : ℕ → ℕ → WorldFrame → ℕ → Segment → Segment
published room i frame cs m = record {
  header = published_header i (published_meta frame cs) m.header;
  words = blit (i * room) frame.height_map.data_words m.words;
}

-- The writes of a publication that fits the mapping publish the metadata and the payload.
pub run_stores-publish_stores :
    (room i : ℕ) (frame : WorldFrame) (cs : ℕ) (m : Segment)
    → i ≤ 1
    → i * room + length frame.height_map.data_words ≤ length m.words
    → run_stores (publish_stores room i frame cs) m ≡ some (published room i frame cs m)
unfolding publish_stores run_stores store_meta
run_stores-publish_stores room zero frame cs m h fits =
    run_stores-copy_append (zero * room) frame.height_map.data_words _ _ fits
run_stores-publish_stores room (suc zero) frame cs m h fits =
    run_stores-copy_append (suc zero * room) frame.height_map.data_words _ _ fits
run_stores-publish_stores room (suc (suc i)) frame cs m h fits = absurd (omega arith)

-- Buffer `a` is as before, with its payload, and readers still follow the same index.
pub record Untouched (room a : ℕ) (m m' : Segment) : Type 0 where
  pub active : m'.header.active_index ≡ m.header.active_index
  pub algorithm : m'.header.checksum_algorithm ≡ m.header.checksum_algorithm
  pub metadata : buffer m'.header a ≡ buffer m.header a
  pub size : length m'.words ≡ length m.words
  pub payload : (n : ℕ) → n ≤ room → slice (a * room) n m'.words ≡ slice (a * room) n m.words

-- A write that leaves buffer `a` of a segment of `size` words alone, and is inside it.
abbrev pub Spares : ℕ → ℕ → ℕ → Store → Type 0
Spares room size a (meta i f) = (i ≢ a) × (i ≤ 1) × (a ≤ 1)
Spares room size a (word off v) = (off < size) × ((off < a * room) ⊎ (a * room + room ≤ off))
Spares room size a (activate i) = ⊥

store_meta-Untouched :
    (room a i : ℕ) (f : BufferMeta → BufferMeta) (m : Segment)
    → i ≢ a
    → i ≤ 1
    → a ≤ 1
    → (m' : Segment) × (store (meta i f) m ≡ some m') × Untouched room a m m'
unfolding store store_meta
store_meta-Untouched room zero zero f m ne h k = absurd (ne refl)
store_meta-Untouched room (suc a) zero f m ne h k = (
  record m { header = record (m.header) { buffer0 = f m.header.buffer0 } },
  refl,
  record {
    active = refl;
    algorithm = refl;
    metadata = ground arith;
    size = refl;
    payload = λ n p. refl;
  },
)
store_meta-Untouched room zero (suc zero) f m ne h k = (
  record m { header = record (m.header) { buffer1 = f m.header.buffer1 } },
  refl,
  record { active = refl; algorithm = refl; metadata = refl; size = refl; payload = λ n p. refl },
)
store_meta-Untouched room (suc zero) (suc zero) f m ne h k = absurd (ne refl)
store_meta-Untouched room (suc (suc a)) (suc zero) f m ne h k = absurd (omega arith)
store_meta-Untouched room a (suc (suc i)) f m ne h k = absurd (omega arith)

store-Untouched :
    (room a : ℕ) (s : Store) (m : Segment)
    → Spares room (length m.words) a s
    → (m' : Segment) × (store s m ≡ some m') × Untouched room a m m'
unfolding store
store-Untouched room a (meta i f) m (ne, h, k) = store_meta-Untouched room a i f m ne h k
store-Untouched room a (word off v) m (inside, apart) = (
  record m { words = set m.words off v },
  rw (lt→ltb off (length m.words) inside) refl,
  record {
    active = refl;
    algorithm = refl;
    metadata = refl;
    size = length-set m.words off v;
    payload = λ n p. slice-set_ne (a * room) n off v m.words (omega arith);
  },
)
store-Untouched room a (activate i) m h = absurd h

Untouched-trans :
    (room a : ℕ) (m₁ m₂ m₃ : Segment)
    → Untouched room a m₁ m₂
    → Untouched room a m₂ m₃
    → Untouched room a m₁ m₃
Untouched-trans room a m₁ m₂ m₃ u v = record {
  active = v.active ∙ u.active;
  algorithm = v.algorithm ∙ u.algorithm;
  metadata = v.metadata ∙ u.metadata;
  size = v.size ∙ u.size;
  payload = λ n p. v.payload n p ∙ u.payload n p;
}

pub run_stores-Untouched :
    (room a size : ℕ) (ss : List Store) (m : Segment)
    → length m.words ≡ size
    → All (Spares room size a) ss
    → (m' : Segment) × (run_stores ss m ≡ some m') × Untouched room a m m'
unfolding run_stores
run_stores-Untouched room a size [] m e h = (
  m,
  refl,
  record { active = refl; algorithm = refl; metadata = refl; size = refl; payload = λ n p. refl },
)
run_stores-Untouched room a size (s ∷ ss) m e (h, hs) =
    let (m₁, e₁, u₁) = store-Untouched room a s m (rw e h) in
    let (m₂, e₂, u₂) = run_stores-Untouched room a size ss m₁ (u₁.size ∙ e) hs in
    (m₂, rw e₁ e₂, Untouched-trans room a m m₁ m₂ u₁ u₂)
