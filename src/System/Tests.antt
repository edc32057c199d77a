-- ===== src/System/Tests.antt =====
-- The small frame and the small segment of the parts' own tests.
use caldera_sandbox.Base.{ℕ, ◌≡◌, refl, inl, none, some, arith}
use caldera_sandbox.Base.Int.{pos}
use caldera_sandbox.Base.Fixed.{Fixed, fixed_float}
use caldera_sandbox.World.{WorldFrame}
use caldera_sandbox.Blur.Gaussian.{ideal_width}
use caldera_sandbox.Manager.Frame.{ProcessingManager, process_raw_depth_frame}
use caldera_sandbox.Manager.Ready.{IsReady}
use caldera_sandbox.Manager.Whole.{IsFrame}
use caldera_sandbox.Manager.Tests.{
  raw_1, same, three, all_wide, no_op, image, twice, manager_1, manager_1-IsReady,
}
use caldera_sandbox.Shm.Segment.{Segment}
use caldera_sandbox.Shm.Server.{Server, choose_checksum, maps}
use caldera_sandbox.Shm.Send.{send_world_frame}
use caldera_sandbox.Shm.Reader.{observe}
use caldera_sandbox.Shm.Atomic.{published_view}
use caldera_sandbox.Shm.Tests.{fresh, live, live-IsReady, reader}
use caldera_sandbox.System.Pipeline.{
  process_raw_depth_frame-send_delivers, process_raw_depth_frame-send_overruns,
}

process_raw_depth_frame-send_delivers_example :
    (b : WorldFrame × ProcessingManager Fixed ℕ) × (process_raw_depth_frame same same same three
        all_wide image twice no_op
        (none, none)
        raw_1
        manager_1
      ≡ some b)
    × IsFrame same three all_wide no_op raw_1 manager_1 2 2 image b.0
    × (s' : Server Fixed) × (segment' : Segment) × (send_world_frame (maps fresh) 100 200 b.0 live
        ≡ some s')
    × (s'.mapping ≡ some segment')
    × (observe reader segment'
        ≡ some (
          published_view reader fresh b.0 (choose_checksum live b.0 100).0,
          b.0.height_map.data_words,
        ))
process_raw_depth_frame-send_delivers_example =
    process_raw_depth_frame-send_delivers same three all_wide no_op raw_1 manager_1 same same image
      twice (maps fresh) 100 200 live fresh 2 2 (none, none) reader manager_1-IsReady refl
      (inl refl) refl live-IsReady refl refl (omega arith) (omega arith) refl refl

abbrev doubling : ProcessingManager Fixed ℕ
doubling = record manager_1 { duplicate = some (some (pos 20_000)) }

doubling-IsReady : IsReady same three all_wide no_op raw_1 doubling 2 2
unfolding ideal_width
doubling-IsReady = record {
  width = refl;
  height = refl;
  w_le = omega arith;
  h_le = omega arith;
  area = omega arith;
  past_end = omega arith;
  stages = tt;
  wide = omega arith;
  keeps = λ t hs. refl;
}

process_raw_depth_frame-send_overruns_example :
    (b : WorldFrame × ProcessingManager Fixed ℕ) × (process_raw_depth_frame same same same three
        all_wide image twice no_op
        (none, none)
        raw_1
        doubling
      ≡ some b)
    × (send_world_frame (maps fresh) 100 200 b.0 live ≡ none)
process_raw_depth_frame-send_overruns_example =
    process_raw_depth_frame-send_overruns same three all_wide no_op raw_1 doubling same same image
      twice (maps fresh) 100 200 live fresh 2 2 (none, none) (some (pos 20_000)) doubling-IsReady
      (omega arith) (omega arith) refl (inl refl) (inl refl) live-IsReady refl refl refl
      (omega arith) (omega arith) (omega arith)
