-- ===== src/Sensor/Loader.antt =====
-- `MockSensorDevice::loadDataFile`. The code never asks whether a read succeeded: past the end of the
-- file the values that it goes on with are unspecified.
use caldera_sandbox.Base.{
  ℕ, zero, suc, Option, none, some, List, [], ◌∷◌, ◌==◌, if◌then◌else◌, drop, ◌>>=◌,
}
use caldera_sandbox.Base.Int.{to_i32}
use caldera_sandbox.Base.Bytes.{split_at, read_uint}
use caldera_sandbox.Sensor.Data.{RawDepthFrame, RawColorFrame}
use caldera_sandbox.Sensor.Recorder.{file_magic, file_version}

pub record FrameData : Type 0 where
  pub timestamp_ns : ℕ
  pub depth : RawDepthFrame
  pub color : RawColorFrame

-- `n` 16-bit values.
unfoldable pub read_shorts : ℕ → List ℕ → Option (List ℕ × List ℕ)
unfolding read_uint
read_shorts zero s = some ([], s)
read_shorts (suc n) s =
    read_uint 2 s >>= λ (d, s₁). read_shorts n s₁ >>= λ (ds, s₂). some (d ∷ ds, s₂)

-- Width, height, size and values of a frame, the values read by `read`.
unfoldable pub read_image :
    (ℕ → List ℕ → Option (List ℕ × List ℕ)) → List ℕ → Option ((ℕ × ℕ × List ℕ) × List ℕ)
unfolding read_uint
read_image read s = read_uint 4 s >>= λ (width, s₁).
    (read_uint 4 s₁ >>= λ (height, s₂).
    (read_uint 4 s₂ >>= λ (size, s₃).
    (read size s₃ >>= λ (values, s₄). some ((width, height, values), s₄))))

-- One round of the loop over the frames of sensor `id`.
unfoldable pub read_frame : ℕ → List ℕ → Option (FrameData × List ℕ)
unfolding read_image read_shorts
read_frame id s = read_uint 8 s >>= λ (time, s₁).
    (read_image read_shorts s₁ >>= λ (depth, s₂).
    (read_image split_at s₂ >>= λ (color, s₃). some (
      record {
        timestamp_ns = time;
        depth = record {
          sensor_id = id;
          timestamp_ns = time;
          width = to_i32 depth.0;
          height = to_i32 depth.1;
          samples = depth.2;
        };
        color = record {
          sensor_id = id;
          timestamp_ns = time;
          width = to_i32 color.0;
          height = to_i32 color.1;
          samples = color.2;
        };
      },
      s₃,
    )))

unfoldable pub read_frames : ℕ → ℕ → List ℕ → Option (List FrameData)
unfolding read_frame
read_frames id zero s = some []
read_frames id (suc n) s =
    read_frame id s >>= λ (frame, s₁). read_frames id n s₁ >>= λ frames. some (frame ∷ frames)

-- `unspecified` is a load that read past the end of the file, and reports success.
pub data Loaded : Type 0 where
  rejected unspecified : Loaded
  loaded : List FrameData → Loaded

unfoldable pub load_frames : ℕ → Option (ℕ × List ℕ) → Loaded
unfolding read_frames
load_frames id none = unspecified
load_frames id (some (count, s)) = elim (read_frames id count (drop 20 s)) [
  | none ↦ unspecified
  | some frames ↦ loaded frames
]

unfoldable pub check_version : ℕ → Option (ℕ × List ℕ) → Loaded
unfolding load_frames read_uint
check_version id none = unspecified
check_version id (some (version, s)) =
    if version == file_version then load_frames id (read_uint 4 s) else rejected

unfoldable pub check_magic : ℕ → Option (ℕ × List ℕ) → Loaded
unfolding check_version read_uint
check_magic id none = unspecified
check_magic id (some (magic, s)) =
    if magic == file_magic then check_version id (read_uint 4 s) else rejected

unfoldable pub load_data_file : ℕ → List ℕ → Loaded
unfolding check_magic read_uint
load_data_file id bytes = check_magic id (read_uint 4 bytes)
