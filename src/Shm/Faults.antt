-- ===== src/Shm/Faults.antt =====
-- Inputs at which the shared-memory transport leaves its contract.
use native.Mathlib.Nat.{le_refl, mul-le-mul}
use caldera_sandbox.Base.{
  ℕ, ◌+◌, ◌*◌, ◌≤◌, ◌<◌, ◌≡◌, ◌≢◌, refl, ap, ◌∙◌, ◌⊎◌, inl, inr, true, false, none, some, List, [],
  ◌∷◌, ◌++◌, arith, length, Bool-cases, ltb, length-set, set,
}
use caldera_sandbox.Base.Float.{Float}
use caldera_sandbox.World.{WorldFrame}
use caldera_sandbox.Shm.Segment.{Segment, Store, store_meta, run_stores, copy_words}
use caldera_sandbox.Shm.Server.{
  Server, Config, Attempt, truncate_fails, capacity, exceeds, clamp_config, choose_checksum, start,
  stop, ensure_mapped, hard_max_width, shm_magic,
}
use caldera_sandbox.Shm.Send.{publish_stores, publish, write_index, attempted, send_world_frame}
use caldera_sandbox.Shm.Reader.{ShmReader, OpenAttempt, maps, open_reader}
use caldera_sandbox.Shm.Lifecycle.{IsReady}
use caldera_sandbox.Shm.Delivery.{send-eq, live-IsValid}

copy_words-fault :
    (o : ℕ) (ws : List ℕ) (ts : List Store) (m : Segment)
    → length m.words < o + length ws
    → o ≤ length m.words
    → run_stores (copy_words o ws ++ ts) m ≡ none
unfolding copy_words run_stores
copy_words-fault o [] ts m h k = absurd (omega arith)
copy_words-fault o (w ∷ ws) ts m h k = elim (Bool-cases (ltb o (length m.words))) [
  | inl inside ↦ rw inside (
      copy_words-fault (o + 1) ws ts (record m { words = set m.words o w })
        (omega (arith, length-set {0} m.words o w)) (ground (arith, length-set {0} m.words o w)))
  | inr outside ↦ rw outside refl
]

publish_stores-fault :
    (room : ℕ) (frame : WorldFrame) (cs : ℕ) (m : Segment)
    → length m.words ≡ room + room
    → room < length frame.height_map.data_words
    → run_stores (publish_stores room 1 frame cs) m ≡ none
unfolding publish_stores run_stores store_meta
publish_stores-fault room frame cs m size long =
    copy_words-fault (1 * room) frame.height_map.data_words _ _ (omega arith) (omega arith)

module _ {D : Type 0} ⦃d : Float D⦄ where
  publish-fault :
      (now₁ now₂ : ℕ) (frame : WorldFrame) (m : Segment) (s : Server D)
      → m.header.active_index ≡ 0
      → length m.words ≡ capacity s.config + capacity s.config
      → capacity s.config < length frame.height_map.data_words
      → publish now₁ now₂ frame m s ≡ none
  unfolding publish
  publish-fault now₁ now₂ frame m s first size long =
      let room = capacity s.config in
      let cs = (choose_checksum s frame now₁).0 in
      let e : write_index m ≡ 1 = omega arith in
      let gone : run_stores (publish_stores room (write_index m) frame cs) m ≡ none =
        ap (λ i. run_stores (publish_stores room i frame cs) m) e
        ∙ publish_stores-fault room frame cs m size long in
      rw (gone, publish) refl

  -- Only the frame's width and height are compared with the capacity, never the size of its data: when a
  -- well-formed producer runs and readers follow buffer 0, a frame of accepted dimensions with more
  -- values than a buffer holds is copied past the end of the mapping.
  pub send_overruns :
      (os : Attempt) (now₁ now₂ : ℕ) (frame : WorldFrame) (s : Server D) (m : Segment)
      → IsReady s
      → s.running ≡ true
      → s.mapping ≡ some m
      → m.header.active_index ≡ 0
      → exceeds s.config frame.height_map ≡ false
      → capacity s.config < length frame.height_map.data_words
      → send_world_frame os now₁ now₂ frame s ≡ none
  unfolding attempted
  send_overruns os now₁ now₂ frame s m v on mapped first small long =
      send-eq os now₁ now₂ frame s m on mapped
      ∙ rw small (
          publish-fault now₁ now₂ frame m (attempted s) first
            (live-IsValid os now₁ now₂ frame s m v on mapped).size long)

  -- When the producer does not run and has no mapping, a start whose `ftruncate` fails leaves the
  -- descriptor open, and `stop` does not close it.
  pub stop-start_leaks :
      (s : Server D)
      → s.running ≡ false
      → s.mapping ≡ none
      → (stop (start truncate_fails s)).fd_open ≡ true
  unfolding stop start ensure_mapped
  stop-start_leaks s off unmapped = ground arith

-- The producer cuts a width above 2048 down, and the reader does not: from the same configuration, of
-- positive height, a reader that opens a segment counts on more words in a buffer than the producer,
-- so that they disagree on where buffer 1 begins.
pub capacity-mismatch :
    (c : Config) (m : Segment) (r : ShmReader)
    → hard_max_width < c.max_width
    → 0 < c.max_height
    → r.mapped ≡ false
    → capacity (clamp_config c) < (open_reader (maps m) c.max_width c.max_height r).1.capacity
unfolding clamp_config open_reader
capacity-mismatch c m r wide tall closed = ground (arith, mul-le-mul wide (le_refl c.max_height))

-- A reader without a mapping that refuses a segment for its magic number or version stays mapped to it,
-- so that the next call of `open`, such as the next round of the client's `connect`, accepts it unread.
pub open_reader-retry :
    (os : OpenAttempt) (w h : ℕ) (m : Segment) (r : ShmReader)
    → r.mapped ≡ false
    → (m.header.magic ≢ shm_magic) ⊎ (m.header.version ≢ 2)
    → let (opened, r') = open_reader (maps m) w h r in
      (opened ≡ false) × (open_reader os w h r' ≡ (true, r'))
unfolding open_reader
open_reader-retry os w h m r closed bad = ground arith
