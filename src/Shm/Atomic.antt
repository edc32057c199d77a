-- ===== src/Shm/Atomic.antt =====
-- A reader that polls during a publication: it sees the frame before it, or the new one, never a mixture.
use caldera_sandbox.Base.{
  ℕ, zero, suc, ◌+◌, ◌*◌, ◌%◌, ◌≤◌, ◌<◌, ◌≡◌, ◌≢◌, refl, ap, ◌∙◌, ◌⊎◌, inl, inr, some, List, [],
  ◌∷◌, ◌++◌, arith, true, ltb, if◌then◌else◌, length, take, All, All-append, All-take,
  take-append_le, append_assoc, take_all, Option-cases, length-append,
}
use caldera_sandbox.Base.{Bool-cases, ltb→lt}
use caldera_sandbox.Base.Words.{u32_mod}
use caldera_sandbox.Base.Int.{to_u32}
use caldera_sandbox.World.{WorldFrame}
use caldera_sandbox.Shm.Segment.{
  BufferMeta, ShmHeader, Segment, Store, meta, activate, run_stores, copy_words, slice,
}
use caldera_sandbox.Shm.Memory.{blit, slice-blit_self}
use caldera_sandbox.Shm.Send.{publish_stores, write_index}
use caldera_sandbox.Shm.Reader.{ShmReader, FrameView, view_of, latest, payload, observe}
use caldera_sandbox.Shm.Publish.{
  published_meta, published_header, published, run_stores-publish_stores, Untouched, Spares,
  run_stores-Untouched,
}

-- A segment with two buffers of `room` words.
pub record IsValid (room : ℕ) (m : Segment) : Type 0 where
  pub active : m.header.active_index ≤ 1
  pub size : length m.words ≡ room + room
  pub small : room < u32_mod
  pub count0 : m.header.buffer0.float_count ≤ room
  pub count1 : m.header.buffer1.float_count ≤ room

latest-Untouched :
    (r : ShmReader) (room a : ℕ) (m m' : Segment)
    → Untouched room a m m'
    → m.header.active_index ≡ a
    → latest r m' ≡ latest r m
unfolding latest view_of
latest-Untouched r room a m m' u e = ground (arith, u.active, u.metadata, u.algorithm)

copy_words-Spares :
    (room size a off : ℕ) (ws : List ℕ)
    → off + length ws ≤ size
    → (off + length ws ≤ a * room) ⊎ (a * room + room ≤ off)
    → All (Spares room size a) (copy_words off ws)
unfolding copy_words
copy_words-Spares room size a off [] h apart = tt
copy_words-Spares room size a off (w ∷ ws) h apart = (
  (omega arith, ground arith),
  copy_words-Spares room size a (off + 1) ws (omega arith) (ground arith),
)

-- The writes of a publication before the last one, which moves the readers on.
abbrev before_activate : ℕ → ℕ → WorldFrame → ℕ → List Store
before_activate room i frame cs =
    let hm = frame.height_map in
    meta i (λ b. record b { ready = 0 })
    ∷ meta i (λ b. record b { frame_id = frame.frame_id })
    ∷ meta i (λ b. record b { timestamp_ns = frame.timestamp_ns })
    ∷ meta i (λ b. record b { width = to_u32 hm.width })
    ∷ meta i (λ b. record b { height = to_u32 hm.height })
    ∷ meta i (λ b. record b { float_count = length hm.data_words % u32_mod })
    ∷ meta i (λ b. record b { checksum = cs })
    ∷ (copy_words (i * room) hm.data_words ++ (meta i (λ b. record b { ready = 1 }) ∷ []))

publish_stores-before :
    (room i : ℕ) (frame : WorldFrame) (cs : ℕ)
    → publish_stores room i frame cs ≡ before_activate room i frame cs ++ (activate i ∷ [])
unfolding publish_stores
publish_stores-before room i frame cs = simp append_assoc

-- The two slots do not overlap.
slot_apart :
    (room i a n : ℕ)
    → i ≤ 1
    → a ≤ 1
    → i ≢ a
    → n ≤ room
    → (i * room + n ≤ a * room) ⊎ (a * room + room ≤ i * room)
slot_apart room zero zero n hi ha ne h = absurd (ne refl)
slot_apart room zero (suc zero) n hi ha ne h = inl (omega arith)
slot_apart room zero (suc (suc a)) n hi ha ne h = absurd (omega arith)
slot_apart room (suc zero) zero n hi ha ne h = inr (omega arith)
slot_apart room (suc zero) (suc zero) n hi ha ne h = absurd (ne refl)
slot_apart room (suc zero) (suc (suc a)) n hi ha ne h = absurd (omega arith)
slot_apart room (suc (suc i)) a n hi ha ne h = absurd (omega arith)

pub slot_inside : (room i n : ℕ) → i ≤ 1 → n ≤ room → i * room + n ≤ room + room
slot_inside room zero n hi h = omega arith
slot_inside room (suc zero) n hi h = omega arith
slot_inside room (suc (suc i)) n hi h = absurd (omega arith)

before_activate-Spares :
    (room i a size : ℕ) (frame : WorldFrame) (cs : ℕ)
    → i ≤ 1
    → a ≤ 1
    → i ≢ a
    → size ≡ room + room
    → length frame.height_map.data_words ≤ room
    → All (Spares room size a) (before_activate room i frame cs)
before_activate-Spares room i a size frame cs hi ha ne hs fits =
    let words = frame.height_map.data_words in
    let ok : (i ≢ a) × (i ≤ 1) × (a ≤ 1) = (ne, hi, ha) in
    let copied : All (Spares room size a) (copy_words (i * room) words) =
      copy_words-Spares room size a (i * room) words
        (omega (arith, slot_inside room i (length words) hi fits))
        (slot_apart room i a (length words) hi ha ne fits) in
    (ok, (ok, (ok, (ok, (ok, (ok, (ok, All-append (Spares room size a) _ _ copied (ok, tt))))))))

write_index-apart :
    (m : Segment)
    → m.header.active_index ≤ 1
    → (write_index m ≤ 1) × (write_index m ≢ m.header.active_index)
write_index-apart m h = (omega arith, omega arith)

-- What readers see once a publication is complete.
abbrev pub published_view : ShmReader → Segment → WorldFrame → ℕ → FrameView
published_view r m frame cs =
    view_of (published_meta frame cs) (write_index m * r.capacity) m.header.checksum_algorithm

-- A view stands at the start of the active buffer, and is not longer than a buffer.
latest-eq-some :
    (r : ShmReader) (room : ℕ) (m : Segment) (v : FrameView)
    → IsValid room m
    → latest r m ≡ some v
    → (v.offset ≡ m.header.active_index * r.capacity) × (v.float_count ≤ room)
unfolding latest view_of
latest-eq-some r room m v ok e = ground arith

observe-Untouched :
    (r : ShmReader) (room : ℕ) (m m' : Segment)
    → IsValid room m
    → r.capacity ≡ room
    → Untouched room m.header.active_index m m'
    → observe r m' ≡ observe r m
unfolding observe
observe-Untouched r room m m' ok c u =
    let same = latest-Untouched r room m.header.active_index m m' u refl in
    elim (Option-cases (latest r m)) [
      | inl e ↦ rw (same, e, observe) refl
      | inr (v, e) ↦
          let (at, bound) = latest-eq-some r room m v ok e in
          let at' : v.offset ≡ m.header.active_index * room =
            at ∙ ap (λ t. m.header.active_index * t) c in
          let read : payload v m' ≡ payload v m = rw at' (u.payload v.float_count bound) in
          rw (same, e, observe) (ap (λ ws. some (v, ws)) read)
    ]

latest-published :
    (r : ShmReader) (i : ℕ) (b : BufferMeta) (hdr : ShmHeader) (ws : List ℕ)
    → i ≤ 1
    → r.mapped ≡ true
    → b.ready ≡ 1
    → latest r (record { header = published_header i b hdr; words = ws })
      ≡ some (view_of b (i * r.capacity) hdr.checksum_algorithm)
unfolding latest
latest-published r zero b hdr ws h e k = ground arith
latest-published r (suc zero) b hdr ws h e k = ground arith
latest-published r (suc (suc i)) b hdr ws h e k = absurd (omega arith)

-- The complete publication, as readers see it.
pub observe-published :
    (r : ShmReader) (room i : ℕ) (m : Segment) (frame : WorldFrame) (cs : ℕ)
    → IsValid room m
    → r.capacity ≡ room
    → r.mapped ≡ true
    → i ≤ 1
    → length frame.height_map.data_words ≤ room
    → observe r (published room i frame cs m)
      ≡ some (
        view_of (published_meta frame cs) (i * r.capacity) m.header.checksum_algorithm,
        frame.height_map.data_words,
      )
unfolding observe view_of
observe-published r room i m frame cs ok c mapped hi fits =
    let data_words = frame.height_map.data_words in
    let ws = blit (i * room) data_words m.words in
    let whole : length data_words % u32_mod ≡ length data_words = omega (arith, ok.small) in
    let read : slice (i * r.capacity) (length data_words % u32_mod) ws ≡ data_words =
      rw (c, whole)
        (slice-blit_self (i * room) data_words m.words
          (omega (arith, ok.size, slot_inside room i (length data_words) hi fits))) in
    rw (latest-published r i (published_meta frame cs) m.header ws hi mapped refl, observe)
      (ap
        (λ t.
          some (view_of (published_meta frame cs) (i * r.capacity) m.header.checksum_algorithm, t))
        read)

-- For a valid segment with buffers of a size, a frame with no more values than that, and a reader that is
-- open with the same size: after any number of the writes of a publication, the reader sees what it saw
-- before, until the last write, and the complete new frame after it.
pub publish_atomic :
    (r : ShmReader) (room : ℕ) (m : Segment) (frame : WorldFrame) (cs k : ℕ)
    → IsValid room m
    → r.capacity ≡ room
    → r.mapped ≡ true
    → length frame.height_map.data_words ≤ room
    → let writes = publish_stores room (write_index m) frame cs in
      (m' : Segment) × (run_stores (take k writes) m ≡ some m')
      × (observe r m' ≡ (
          if ltb k (length writes)
          then observe r m
          else some (published_view r m frame cs, frame.height_map.data_words)))
publish_atomic r room m frame cs k ok c mapped fits =
    let i = write_index m in
    let writes = publish_stores room i frame cs in
    let front = before_activate room i frame cs in
    let (hi, apart) = write_index-apart m ok.active in
    let split : writes ≡ front ++ (activate i ∷ []) = publish_stores-before room i frame cs in
    elim (Bool-cases (ltb k (length writes))) [
      | inl early ↦
          let k_le : k ≤ length front = omega (
            arith,
            ltb→lt k (length writes) early,
            ap length split,
            length-append {0} front (activate i ∷ []),
          ) in
          let kept = All-take (Spares room (length m.words) m.header.active_index) k front (
            before_activate-Spares room i m.header.active_index (length m.words) frame cs hi
              ok.active apart ok.size fits) in
          let (m', ran, u) =
            run_stores-Untouched room m.header.active_index (length m.words) (take k front) m refl
              kept in
          rw early (
            m',
            rw (split, take-append_le k front (activate i ∷ []) k_le) ran,
            observe-Untouched r room m m' ok c u,
          )
      | inr late ↦
          let all : length writes ≤ k = ground arith in
          rw late (
            published room i frame cs m,
            rw (take_all k writes all) (
                run_stores-publish_stores room i frame cs m hi
                  (omega (arith, slot_inside room i (length frame.height_map.data_words) hi fits))),
            observe-published r room i m frame cs ok c mapped hi fits,
          )
    ]
