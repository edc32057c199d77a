-- ===== src/Shm/Checks.antt =====
-- The checksum on its way from the producer to the client, and the client's statistics.
use caldera_sandbox.Shm.Lifecycle.{IsReady, IsWellFormed, fits_of_not_exceeds, capacity-lt}
use caldera_sandbox.Shm.Atomic.{published_view}
use caldera_sandbox.Shm.Delivery.{send_delivers}
use caldera_sandbox.Shm.Send.{send_world_frame}
use caldera_sandbox.Base.{
  ℕ, ◌+◌, ◌≤◌, ◌<◌, ◌≡◌, refl, ◌⊎◌, inl, inr, Bool, true, false, none, some, List, arith, length,
  Option-cases, [], ◌∷◌,
}
use caldera_sandbox.Base.Words.{u64_mod}
use caldera_sandbox.Base.Float.{Float}
use caldera_sandbox.World.{WorldFrame}
use caldera_sandbox.Checksum.{crc32}
use caldera_sandbox.Shm.Segment.{Segment}
use caldera_sandbox.Shm.Server.{Server, choose_checksum, Attempt, capacity, exceeds}
use caldera_sandbox.Shm.Reader.{
  ShmReader, FrameView, observe, latest, verify_checksum, payload, view_of,
}
use caldera_sandbox.Shm.Client.{ShmClient, Stats, latest_frame, latest_checked}

-- Of the frames seen with a checksum all that were checked matched or did not, and no frame counts twice.
pub record IsCounted (st : Stats) : Type 0 where
  pub checked : st.checksum_verified + st.checksum_mismatch ≤ st.checksum_present
  pub present : st.checksum_present ≤ st.frames_observed
  pub distinct : st.distinct_frames ≤ st.frames_observed

latest_checked-IsCounted :
    (verify : Bool) (v : FrameView) (m : Segment) (c : ShmClient)
    → IsCounted c.stats
    → c.stats.frames_observed + 1 < u64_mod
    → let (out, c') = latest_checked verify v m c in
      IsCounted c'.stats
      × (out.frame_id ≡ v.frame_id)
      × (c'.stats.frames_observed ≡ c.stats.frames_observed + 1)
      × (c'.stats.last_frame_id ≡ v.frame_id)
unfolding latest_checked
latest_checked-IsCounted verify v m c ok h = ground arith

-- Below 2^64 frames a poll keeps the client's statistics consistent, returns a frame just when the
-- reader has one, and counts it once.
pub latest_frame-IsCounted :
    (verify : Bool) (m : Segment) (c : ShmClient)
    → IsCounted c.stats
    → c.stats.frames_observed + 1 < u64_mod
    → let (out, c') = latest_frame verify m c in
      IsCounted c'.stats
      × (((latest c.reader m ≡ none) × (out ≡ none) × (c' ≡ c))
          ⊎ ((v : FrameView) × (latest c.reader m ≡ some v)
              × (out ≡ some (latest_checked verify v m c).0)
              × (c'.stats.frames_observed ≡ c.stats.frames_observed + 1)
              × (c'.stats.last_frame_id ≡ v.frame_id)))
unfolding latest_frame
latest_frame-IsCounted verify m c ok h = elim (Option-cases (latest c.reader m)) [
  | inl e ↦ ground (arith, e)
  | inr (v, e) ↦ ground (arith, e, latest_checked-IsCounted verify v m c ok h)
]

module _ {D : Type 0} ⦃d : Float D⦄ where
  choose_checksum-cases :
      (s : Server D) (frame : WorldFrame) (now : ℕ)
      → let cs = (choose_checksum s frame now).0 in
        (cs ≡ 0) ⊎ ((cs ≡ frame.checksum) ⊎ (cs ≡ crc32 frame.height_map.data_words))
  unfolding choose_checksum
  choose_checksum-cases s frame now = ground arith

crc32-nil : crc32 [] ≡ 0
unfolding crc32
crc32-nil = refl

observe-eq-some :
    (r : ShmReader) (m : Segment) (v : FrameView) (ws : List ℕ)
    → observe r m ≡ some (v, ws)
    → (latest r m ≡ some v) × (payload v m ≡ ws)
unfolding observe
observe-eq-some r m v ws e = ground arith

verify_checksum-of_payload :
    (v : FrameView) (m : Segment) (ws : List ℕ)
    → payload v m ≡ ws
    → (v.checksum ≡ 0) ⊎ (v.checksum ≡ crc32 ws)
    → v.float_count ≡ length ws
    → v.checksum_valid ≡ true
    → verify_checksum v m ≡ (true, v)
unfolding verify_checksum
verify_checksum-of_payload v m [] p c n t = ground (arith, crc32-nil)
verify_checksum-of_payload v m (w ∷ ws) p c n t = ground arith

module _ {D : Type 0} ⦃d : Float D⦄ where
  -- When a well-formed producer runs and a reader is open with its buffer size, a well-formed frame of
  -- accepted dimensions that comes with no checksum or with the CRC32 of its payload is sent without a
  -- fault and passes the reader's verification, whatever the producer's checksum interval.
  pub send_verifies :
      (os : Attempt) (now₁ now₂ : ℕ) (frame : WorldFrame) (s : Server D) (r : ShmReader)
      (m : Segment)
      → IsReady s
      → IsWellFormed frame.height_map
      → s.running ≡ true
      → s.mapping ≡ some m
      → exceeds s.config frame.height_map ≡ false
      → r.mapped ≡ true
      → r.capacity ≡ capacity s.config
      → (frame.checksum ≡ 0) ⊎ (frame.checksum ≡ crc32 frame.height_map.data_words)
      → (v : FrameView) × (s' : Server D) × (m' : Segment) × (send_world_frame os now₁ now₂ frame s
          ≡ some s')
        × (s'.mapping ≡ some m')
        × (latest r m' ≡ some v)
        × (verify_checksum v m' ≡ (true, v))
  unfolding view_of
  send_verifies os now₁ now₂ frame s r m v w on mapped small open_ same sum =
      let (s', m', sent, kept, seen) =
        send_delivers os now₁ now₂ frame s r m v w on mapped small open_ same in
      let view = published_view r m frame (choose_checksum s frame now₁).0 in
      let (read, data_read) = observe-eq-some r m' view frame.height_map.data_words seen in
      let fits = fits_of_not_exceeds s.config frame.height_map w small in
      let whole : view.float_count ≡ length frame.height_map.data_words =
        omega (arith, capacity-lt s.config v.within) in
      (
        view,
        s',
        m',
        sent,
        kept,
        read,
        verify_checksum-of_payload view m' frame.height_map.data_words data_read
            (ground (arith, choose_checksum-cases s frame now₁)) whole refl,
      )
