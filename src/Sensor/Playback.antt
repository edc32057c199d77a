-- ===== src/Sensor/Playback.antt =====
-- backend/src/hal/MockSensorDevice.{h,cpp}: the device and the thread that plays its frames back. A thread's
-- run is given by what each test of `is_running_` reads; times and logging are left out.
use caldera_sandbox.Base.{
  ℕ, ◌+◌, Bool, true, false, not, ◌&&◌, ◌||◌, Option, none, some, List, [], ◌∷◌, ltb, leb,
  if◌then◌else◌, length, get_elem?,
}
use caldera_sandbox.Base.Int.{ℤ, negsuc, pos_part}
use caldera_sandbox.Sensor.Loader.{FrameData, Loaded, rejected, unspecified, loaded, load_data_file}

pub data PlaybackMode : Type 0 where
  single_frame once loop : PlaybackMode

-- `frame_callback` tells whether one is set, `joinable` whether the member `playback_thread_` holds a thread
-- that was not joined.
pub record MockSensorDevice : Type 0 where
  pub frames : List FrameData
  pub frame_count : ℕ
  pub data_loaded : Bool
  pub playback_mode : PlaybackMode
  pub loop_count : ℤ
  pub is_running : Bool
  pub frame_callback : Bool
  pub joinable : Bool

abbrev pub new_device : MockSensorDevice
new_device = record {
  frames = [];
  frame_count = 0;
  data_loaded = false;
  playback_mode = once;
  loop_count = negsuc 0;
  is_running = false;
  frame_callback = false;
  joinable = false;
}

-- A load's effect on the device; `none` where the frames are unspecified.
unfoldable pub take_load : Loaded → MockSensorDevice → Option (Bool × MockSensorDevice)
take_load rejected d = some (false, d)
take_load unspecified d = none
take_load (loaded frames) d =
    some (true, record d { frames = frames; frame_count = length frames; data_loaded = true })

-- `open` of device number `id`; `file` is what its file holds, if it can be opened.
unfoldable pub open_device :
    ℕ → Option (List ℕ) → MockSensorDevice → Option (Bool × MockSensorDevice)
unfolding take_load load_data_file
open_device id none d = some (d.is_running, d)
open_device id (some bytes) d =
    if d.is_running then some (true, d) else take_load (load_data_file id bytes) d

unfoldable pub close_device : MockSensorDevice → MockSensorDevice
close_device d = if d.is_running then record d { is_running = false; joinable = false } else d

-- The Boolean tells whether the thread is started. A thread that replaces one that was not joined is `none`:
-- `std::terminate`.
unfoldable pub set_frame_callback : Bool → MockSensorDevice → Option (Bool × MockSensorDevice)
set_frame_callback callback d =
    if callback && d.data_loaded && not d.is_running
    then (if d.joinable
        then none
        else some
            (true, record d { frame_callback = callback; is_running = true; joinable = true }))
    else some (false, record d { frame_callback = callback })

-- At the end of the frames, after `loops` passes: whether the loop is left.
unfoldable pub is_finished : PlaybackMode → ℤ → ℕ → Bool
is_finished single_frame limit loops = false
is_finished once limit loops = true
is_finished loop limit loops = ltb 0 (pos_part limit) && leb (pos_part limit) loops

-- The next frame and number of passes, and whether the loop is left.
unfoldable pub advance : PlaybackMode → ℤ → ℕ → ℕ → ℕ → ℕ × ℕ × Bool
unfolding is_finished
advance mode limit size current loops =
    if leb size (current + 1)
    then (0, loops + 1, is_finished mode limit (loops + 1))
    else (current + 1, loops, false)

-- The frames given to the callback, `none` for one out of range, and whether the thread still runs.
pub record Played : Type 0 where
  pub emitted : List (Option FrameData)
  pub running : Bool

-- The loop, each Boolean a reading of `is_running_`.
unfoldable pub rounds : PlaybackMode → ℤ → List FrameData → List Bool → ℕ → ℕ → Played
unfolding advance
rounds mode limit frames [] current loops = record { emitted = []; running = true }
rounds mode limit frames (false ∷ flags) current loops = record { emitted = []; running = false }
rounds mode limit frames (true ∷ flags) current loops =
    let (next, passes, leave) = advance mode limit (length frames) current loops in
    let rest = rounds mode limit frames flags next passes in
    record {
      emitted = get_elem? frames current ∷ (if leave then [] else rest.emitted);
      running = if leave then false else rest.running;
    }

-- `playbackLoop`.
unfoldable pub playback_loop : List Bool → MockSensorDevice → Played × MockSensorDevice
unfolding rounds
playback_loop flags d =
    let run =
      if not d.frame_callback || leb (length d.frames) 0
      then record { emitted = []; running = false }
      else rounds d.playback_mode d.loop_count d.frames flags 0 0 in
    (run, record d { is_running = run.running && d.is_running })
