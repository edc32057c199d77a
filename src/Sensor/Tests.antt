-- ===== src/Sensor/Tests.antt =====
-- Concrete sensors.
use caldera_sandbox.Base.{
  ◌≡◌, ◌≢◌, refl, true, false, none, some, List, [], ◌∷◌, ◌++◌, arith, All, map,
}
use caldera_sandbox.Base.Int.{pos, negsuc}
use caldera_sandbox.Sensor.Data.{RawDepthFrame, RawColorFrame}
use caldera_sandbox.Base.Bytes.{to_bytes}
use caldera_sandbox.Sensor.Recorder.{new_recorder, start_recording, stop_recording, record_frames}
use caldera_sandbox.Sensor.Loader.{loaded, load_data_file}
use caldera_sandbox.Sensor.Playback.{
  MockSensorDevice, new_device, single_frame, loop, playback_loop, close_device, set_frame_callback,
}
use caldera_sandbox.Sensor.Recording.{IsTyped, played}
use caldera_sandbox.Sensor.Replay.{
  recorded, stop_recording-load_data_file, record_frames-load_data_file,
}
use caldera_sandbox.Sensor.Rounds.{playback_loop-All, playback_loop-single_frame}
use caldera_sandbox.Sensor.Passes.{copies, playback_loop-once, playback_loop-loop}
use caldera_sandbox.Base.Fixed.{Fixed, fixed_float}
use caldera_sandbox.Sensor.Synthetic.{
  Config, SyntheticSensor, new_sensor, ramp, fill_pattern, turns, set_stop_after,
}
use caldera_sandbox.Sensor.Counters.{
  IsCounted, steps, steps-IsCounted, opened, callback_set, configured, turned,
}
use caldera_sandbox.Sensor.Stopping.{IsStopped, set_stop_after-IsStopped}

abbrev depth_1 : RawDepthFrame
depth_1 = record {
  sensor_id = 3;
  timestamp_ns = 70000;
  width = pos 2;
  height = pos 1;
  samples = 300 ∷ 40000 ∷ [];
}

abbrev color_1 : RawColorFrame
color_1 = record {
  sensor_id = 3;
  timestamp_ns = 70001;
  width = pos 1;
  height = negsuc 0;
  samples = 9 ∷ 8 ∷ 7 ∷ [];
}

abbrev frames_1 : List (RawDepthFrame × RawColorFrame)
frames_1 = (depth_1, color_1) ∷ (record depth_1 { timestamp_ns = 70009 }, color_1) ∷ []

frame_1-IsTyped : IsTyped (depth_1, color_1)
frame_1-IsTyped = record {
  time = omega arith;
  depth_width = omega arith;
  depth_height = omega arith;
  depth_size = omega arith;
  depths = (omega arith, (omega arith, tt));
  color_width = omega arith;
  color_height = omega arith;
  color_size = omega arith;
}

frame_2-IsTyped : IsTyped (record depth_1 { timestamp_ns = 70009 }, color_1)
frame_2-IsTyped = record {
  time = omega arith;
  depth_width = omega arith;
  depth_height = omega arith;
  depth_size = omega arith;
  depths = (omega arith, (omega arith, tt));
  color_width = omega arith;
  color_height = omega arith;
  color_size = omega arith;
}

stop_recording-load_data_file_example :
    load_data_file 5 (stop_recording (recorded 0 (λ n. 5) frames_1 new_recorder)).disk
    ≡ loaded (map (played 5) frames_1)
stop_recording-load_data_file_example =
    stop_recording-load_data_file 5 0 (λ n. 5) new_recorder frames_1 refl (omega arith)
      (frame_1-IsTyped, (frame_2-IsTyped, tt))

record_frames-load_data_file_example :
    load_data_file 5 (recorded 32 (λ n. 5) frames_1 new_recorder).disk ≡ loaded []
unfolding record_frames start_recording to_bytes
record_frames-load_data_file_example =
    record_frames-load_data_file 5 32 (λ n. 5) new_recorder frames_1 refl (omega arith)
      (omega arith)

abbrev device_1 : MockSensorDevice
device_1 = record new_device {
  frames = map (played 5) frames_1;
  frame_count = 2;
  data_loaded = true;
  is_running = true;
  frame_callback = true;
  joinable = true;
}

playback_loop-All_example :
    All (λ e. e ≢ none) (playback_loop (true ∷ true ∷ true ∷ false ∷ []) device_1).0.emitted
playback_loop-All_example = playback_loop-All (true ∷ true ∷ true ∷ false ∷ []) device_1

playback_loop-single_frame_example :
    (playback_loop (true ∷ true ∷ true ∷ []) (record device_1 { playback_mode = single_frame })).0
    ≡ (playback_loop (true ∷ true ∷ true ∷ []) (record device_1 { playback_mode = loop })).0
playback_loop-single_frame_example =
    playback_loop-single_frame (true ∷ true ∷ true ∷ []) device_1 refl

playback_loop-loop_example :
    (playback_loop
      (copies 3 (true ∷ true ∷ []) ++ (true ∷ []))
      (record device_1 { playback_mode = loop; loop_count = pos 3 })).0
    ≡ record { emitted = copies 3 (map some device_1.frames); running = false }
playback_loop-loop_example = playback_loop-loop 2 device_1 (true ∷ []) refl (omega arith)

playback_loop-once_example :
    (let (run, d') = playback_loop (true ∷ true ∷ true ∷ []) device_1 in
      (run ≡ record { emitted = map some device_1.frames; running = false })
      × (set_frame_callback true d' ≡ none)
      × (set_frame_callback true (close_device d') ≡ none))
playback_loop-once_example =
    playback_loop-once device_1 (true ∷ []) refl refl refl (omega arith) refl

abbrev config_1 : Config
config_1 = record { width = 3; height = 2; pattern = ramp; constant_value = 0; sensor_id = 1 }

abbrev same : Fixed → Fixed
same x = x

fill_pattern_ramp : fill_pattern same same config_1 ≡ 0 ∷ 1 ∷ 2 ∷ 1 ∷ 2 ∷ 3 ∷ []
unfolding fill_pattern
fill_pattern_ramp = refl

-- Every second frame is dropped, and counts towards those that were asked for.
abbrev sensor_1 : SyntheticSensor
sensor_1 = record new_sensor {
  running = true;
  callback = true;
  faults = record { drop_every = 2; jitter_max_ms = 0; seed = 1 };
}

turns_dropped :
    (turns same same config_1 (7 ∷ 8 ∷ 9 ∷ 10 ∷ 11 ∷ []) (set_stop_after 4 sensor_1)).emitted ≡ 2
unfolding turns set_stop_after
turns_dropped = refl

steps-IsCounted_example : IsCounted 5 (
    steps same same config_1
      (opened
        ∷ callback_set true
        ∷ configured (record { drop_every = 2; jitter_max_ms = 0; seed = 1 })
        ∷ turned 7
        ∷ turned 8
        ∷ [])
      new_sensor)
steps-IsCounted_example =
    steps-IsCounted same same config_1
      (opened
        ∷ callback_set true
        ∷ configured (record { drop_every = 2; jitter_max_ms = 0; seed = 1 })
        ∷ turned 7
        ∷ turned 8
        ∷ [])
      (omega arith)

set_stop_after-IsStopped_example :
    IsStopped 2 (turns same same config_1 ((7 ∷ 8 ∷ []) ++ (9 ∷ [])) (set_stop_after 2 sensor_1))
set_stop_after-IsStopped_example =
    set_stop_after-IsStopped same same config_1 2 1 (7 ∷ 8 ∷ []) (9 ∷ []) sensor_1 refl refl
      (omega arith) (omega arith) refl
