-- ===== src/System/Pipeline.antt =====
-- `ProcessingManager` whose callback is `SharedMemoryTransportServer::sendWorldFrame`.
use caldera_sandbox.Base.{ℕ, ◌*◌, ◌≤◌, ◌<◌, ◌≡◌, true, false, Option, none, some, List, arith}
use caldera_sandbox.Base.Int.{ℤ, pos, int_limit}
use native.Mathlib.Nat.{mul-le-mul}
use caldera_sandbox.Base.Float.{Float}
use caldera_sandbox.World.{WorldFrame, HeightMap}
use caldera_sandbox.Sensor.Data.{RawDepthFrame}
use caldera_sandbox.Manager.Frame.{ProcessingManager, process_raw_depth_frame}
use caldera_sandbox.Manager.Ready.{IsReady}
use caldera_sandbox.Manager.Whole.{IsFrame, process_raw_depth_frame-IsFrame}
use caldera_sandbox.Manager.Doubled.{HasEnough, process-IsDoubled}
use caldera_sandbox.Shm.Segment.{Segment}
use caldera_sandbox.Shm.Server.{Server, Config, Attempt, capacity, exceeds, choose_checksum}
use caldera_sandbox.Shm.Send.{send_world_frame}
use caldera_sandbox.Shm.Reader.{ShmReader, observe}
use caldera_sandbox.Shm.Atomic.{published_view}
use caldera_sandbox.Shm.Lifecycle
use caldera_sandbox.Shm.Delivery.{send_delivers}
use caldera_sandbox.Shm.Faults.{send_overruns}

exceeds-small :
    (c : Config) (hm : HeightMap) (w h : ℕ)
    → hm.width ≡ pos w
    → hm.height ≡ pos h
    → w ≤ c.max_width
    → h ≤ c.max_height
    → exceeds c hm ≡ false
unfolding exceeds
exceeds-small c hm w h width height w_le h_le = rw (width, height) (ground arith)

module _ {F : Type 0} ⦃f : Float F⦄ (sqrt : F → F) (floor : F → ℕ) (round : F → ℤ) {S : Type 0}
    (filter : S → List F → ℤ → ℤ → List F × S) (raw : RawDepthFrame) (m : ProcessingManager F S)
    {D : Type 0} ⦃d : Float D⦄ (widen : F → D) (narrow : D → F) (bits : F → ℕ) (dup_id : ℕ → ℕ)
    {E : Type 0} ⦃e : Float E⦄ (os : Attempt) (now₁ now₂ : ℕ) (s : Server E)
    (segment : Segment) where
  open f use {ratio, is_finite}

  -- A manager that is ready for the raw frame (`IsReady` of Manager/Ready), without a duplicate layer, whose
  -- confidences, if there are any, reach over the frame,
  -- floats whose zero is finite, a well-formed producer that runs and is large enough for the frame, and an
  -- open reader of the producer's buffer size: the raw frame is processed, the world frame is sent without
  -- a fault, and the reader sees its identity and its heights, one for each pixel and all finite.
  pub process_raw_depth_frame-send_delivers :
      (w h : ℕ) (cs : Option (List F) × Option (List F)) (r : ShmReader)
      → IsReady sqrt floor round filter raw m w h
      → m.duplicate ≡ none
      → HasEnough (w * h) cs.0
      → is_finite (ratio 0 1) ≡ true
      → Lifecycle.IsReady s
      → s.running ≡ true
      → s.mapping ≡ some segment
      → w ≤ s.config.max_width
      → h ≤ s.config.max_height
      → r.mapped ≡ true
      → r.capacity ≡ capacity s.config
      → (b : WorldFrame × ProcessingManager F S) × (process_raw_depth_frame widen narrow sqrt floor
            round bits dup_id filter cs raw m
          ≡ some b)
        × IsFrame sqrt floor round filter raw m w h bits b.0
        × (s' : Server E) × (segment' : Segment) × (send_world_frame os now₁ now₂ b.0 s ≡ some s')
        × (s'.mapping ≡ some segment')
        × (observe r segment'
            ≡ some (
              published_view r segment b.0 (choose_checksum s b.0 now₁).0,
              b.0.height_map.data_words,
            ))
  process_raw_depth_frame-send_delivers w h cs r ready single enough zero_finite server on mapped
        w_le h_le open_ same =
      let (b, run, (frame, counted)) =
        process_raw_depth_frame-IsFrame sqrt floor round filter raw m widen narrow bits dup_id w h
          cs ready single enough zero_finite in
      let small = exceeds-small s.config b.0.height_map w h frame.width frame.height w_le h_le in
      let (s', segment', sent, kept, seen) =
        send_delivers os now₁ now₂ b.0 s r segment server frame.whole on mapped small open_ same in
      (b, run, frame, s', segment', sent, kept, seen)

  -- A producer bounds its frames, so twice the pixels are few.
  doubled-small :
      (w h : ℕ)
      → Lifecycle.IsReady s
      → w ≤ s.config.max_width
      → h ≤ s.config.max_height
      → 2 * (w * h) < int_limit
  doubled-small w h server w_le h_le =
      let within = server.within in
      omega
        (arith, mul-le-mul {n₁ = w} {m₁ = h} {n₂ = 2048} {m₂ = 2048} (omega arith) (omega arith))

  -- A manager that is ready for the raw frame (`IsReady` of Manager/Ready), with a duplicate layer, whose
  -- confidences, if there are any, reach over the frame, and
  -- a well-formed producer that runs, whose readers follow buffer 0, which is large enough for the frame's
  -- dimensions but not for twice its pixels: the raw frame is processed, and sending the world frame writes
  -- past the end of the mapping.
  pub process_raw_depth_frame-send_overruns :
      (w h : ℕ) (cs : Option (List F) × Option (List F)) (shift : F)
      → IsReady sqrt floor round filter raw m w h
      → 0 < w
      → 0 < h
      → m.duplicate ≡ some shift
      → HasEnough (w * h) cs.0
      → HasEnough (w * h) cs.1
      → Lifecycle.IsReady s
      → s.running ≡ true
      → s.mapping ≡ some segment
      → segment.header.active_index ≡ 0
      → w ≤ s.config.max_width
      → h ≤ s.config.max_height
      → capacity s.config < 2 * (w * h)
      → (b : WorldFrame × ProcessingManager F S) × (process_raw_depth_frame widen narrow sqrt floor
            round bits dup_id filter cs raw m
          ≡ some b)
        × (send_world_frame os now₁ now₂ b.0 s ≡ none)
  process_raw_depth_frame-send_overruns w h cs shift ready w_some h_some dup enough₀ enough₁ server
        on mapped first w_le h_le long =
      let (b, run, (doubled, counted)) =
        process-IsDoubled sqrt floor round filter raw m widen narrow bits dup_id w h cs shift ready
          w_some h_some (doubled-small w h server w_le h_le) dup enough₀ enough₁ in
      let small =
        exceeds-small s.config b.0.height_map w h doubled.width doubled.height w_le h_le in
      (
        b,
        run,
        send_overruns os now₁ now₂ b.0 s segment server on mapped first small
            (omega (arith, doubled.twice)),
      )
