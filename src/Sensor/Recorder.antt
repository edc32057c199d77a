-- ===== src/Sensor/Recorder.antt =====
-- backend/src/hal/SensorRecorder.{h,cpp}: frames appended to a file, and the count written into the
-- header at the end. Whether the file opens is an argument, and so is how many of the bytes that the stream
-- holds it writes out by itself after a call; logging is left out. Writes do not fail.
use caldera_sandbox.Base.{
  ℕ, ◌%◌, Bool, true, false, ◌&&◌, ◌==◌, List, [], ◌∷◌, ◌++◌, if◌then◌else◌, length, take, drop,
}
use caldera_sandbox.Base.Int.{to_u32}
use caldera_sandbox.Base.Words.{u32_mod, inc64}
use caldera_sandbox.Base.Bytes.{to_bytes}
use caldera_sandbox.Sensor.Data.{RawDepthFrame, RawColorFrame}

-- "KINT".
abbrev pub file_magic : ℕ
file_magic = 0x4B494E54

abbrev pub file_version : ℕ
file_version = 1

-- `disk` is what the file holds, `pending` what the stream holds back from it.
pub record SensorRecorder : Type 0 where
  pub disk : List ℕ
  pub pending : List ℕ
  pub file_open : Bool
  pub is_recording : Bool
  pub frame_count : ℕ

abbrev pub new_recorder : SensorRecorder
new_recorder = record {
  disk = [];
  pending = [];
  file_open = false;
  is_recording = false;
  frame_count = 0;
}

-- Magic number, version, number of frames, and 20 bytes kept for later.
unfoldable pub header_image : ℕ → List ℕ
header_image count =
    to_bytes 4 file_magic ++ (to_bytes 4 file_version ++ (to_bytes 4 count ++ to_bytes 20 0))

unfoldable pub shorts_image : List ℕ → List ℕ
shorts_image [] = []
shorts_image (d ∷ ds) = to_bytes 2 d ++ shorts_image ds

-- What `recordFrame` writes: the depth frame's time, then width, height, size and values of both.
unfoldable pub frame_image : RawDepthFrame → RawColorFrame → List ℕ
unfolding shorts_image
frame_image depth color =
    let depth_size = length depth.samples % u32_mod in
    let color_size = length color.samples % u32_mod in
    to_bytes 8 depth.timestamp_ns
    ++ (to_bytes 4 (to_u32 depth.width)
        ++ (to_bytes 4 (to_u32 depth.height)
            ++ (to_bytes 4 depth_size
                ++ (shorts_image (take depth_size depth.samples)
                    ++ (to_bytes 4 (to_u32 color.width)
                        ++ (to_bytes 4 (to_u32 color.height)
                            ++ (to_bytes 4 color_size ++ take color_size color.samples)))))))

-- The stream writes out the first `n` bytes that it holds, or all.
unfoldable pub write_out : ℕ → SensorRecorder → SensorRecorder
write_out n r = record r { disk = r.disk ++ take n r.pending; pending = drop n r.pending }

unfoldable pub flush : SensorRecorder → SensorRecorder
flush r = record r { disk = r.disk ++ r.pending; pending = [] }

unfoldable pub start_recording : Bool → ℕ → SensorRecorder → Bool × SensorRecorder
unfolding header_image write_out
start_recording opens spill r =
    if r.is_recording
    then (false, r)
    else (if opens
        then (
          true,
          write_out spill (record {
            disk = [];
            pending = header_image 0;
            file_open = true;
            is_recording = true;
            frame_count = 0;
          }),
        )
        else (false, record r { file_open = false }))

-- The write at the place of the count, once the stream has written out all it holds.
unfoldable pub write_count : ℕ → List ℕ → List ℕ
write_count count disk = take 8 disk ++ (to_bytes 4 (count % u32_mod) ++ drop 12 disk)

unfoldable pub stop_recording : SensorRecorder → SensorRecorder
unfolding write_count
stop_recording r =
    if r.is_recording
    then record r {
      is_recording = false;
      disk = if r.file_open then write_count r.frame_count (r.disk ++ r.pending) else r.disk;
      pending = if r.file_open then [] else r.pending;
      file_open = false;
    }
    else r

-- Every thirtieth frame is followed by a flush.
unfoldable pub flush_thirtieth : SensorRecorder → SensorRecorder
unfolding flush
flush_thirtieth r = if r.frame_count % 30 == 0 then flush r else r

unfoldable pub record_frame : ℕ → RawDepthFrame → RawColorFrame → SensorRecorder → SensorRecorder
unfolding frame_image write_out flush_thirtieth
record_frame spill depth color r =
    if r.is_recording && r.file_open
    then flush_thirtieth (
        write_out spill (record r {
          pending = r.pending ++ frame_image depth color;
          frame_count = inc64 r.frame_count;
        }))
    else r

-- A callback for each frame, in order; `spill n` is what is written out after the frame that follows `n`
-- others.
unfoldable pub record_frames :
    (ℕ → ℕ) → List (RawDepthFrame × RawColorFrame) → SensorRecorder → SensorRecorder
unfolding record_frame
record_frames spill [] r = r
record_frames spill ((depth, color) ∷ frames) r =
    record_frames spill frames (record_frame (spill r.frame_count) depth color r)
