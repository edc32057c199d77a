-- ===== src/Sensor/Recording.antt =====
-- A recording that was stopped is read back, frame by frame.
use caldera_sandbox.Base.{
  ℕ, ◌%◌, ◌^◌, ◌-◌, lt→ltb, le→not_ltb, ◌<◌, ◌≡◌, refl, ap, ◌∙◌, Option, some, List, [], ◌∷◌, ◌++◌,
  arith, length, All, append_assoc, take_all,
}
use caldera_sandbox.Base.Int.{ℤ, pos, negsuc, to_u32, to_i32}
use caldera_sandbox.Base.Words.{u32_mod, u64_mod}
use caldera_sandbox.Base.Bytes.{to_bytes, split_at, split_at-append, read_uint-to_bytes}
use caldera_sandbox.Sensor.Data.{RawDepthFrame, RawColorFrame}
use caldera_sandbox.Sensor.Recorder.{shorts_image, frame_image}
use caldera_sandbox.Sensor.Loader.{FrameData, read_shorts, read_image, read_frame}

-- An `int`.
abbrev pub IsInt : ℤ → Type 0
IsInt (pos n) = n < 2 ^ 31
IsInt (negsuc n) = n < 2 ^ 31

-- The values of a pair of frames have their types, and 32 bits count them.
pub record IsTyped (frame : RawDepthFrame × RawColorFrame) : Type 0 where
  pub time : frame.0.timestamp_ns < u64_mod
  pub depth_width : IsInt frame.0.width
  pub depth_height : IsInt frame.0.height
  pub depth_size : length frame.0.samples < u32_mod
  pub depths : All (λ d. d < 65536) frame.0.samples
  pub color_width : IsInt frame.1.width
  pub color_height : IsInt frame.1.height
  pub color_size : length frame.1.samples < u32_mod

-- A pair of frames as the mock sensor `id` gives it back.
abbrev pub played : ℕ → RawDepthFrame × RawColorFrame → FrameData
played id (depth, color) = record {
  timestamp_ns = depth.timestamp_ns;
  depth = record depth { sensor_id = id };
  color = record color { sensor_id = id; timestamp_ns = depth.timestamp_ns };
}

to_u32-lt : (z : ℤ) → to_u32 z < u32_mod
to_u32-lt (pos n) = omega arith
to_u32-lt (negsuc n) = omega arith

to_i32-to_u32 : (z : ℤ) → IsInt z → to_i32 (to_u32 z) ≡ z
to_i32-to_u32 (pos n) h =
    let whole : n % 2 ^ 32 ≡ n = omega arith in rw (whole, lt→ltb n (2 ^ 31) h) refl
to_i32-to_u32 (negsuc n) h =
    let whole : n % 2 ^ 32 ≡ n = omega arith in
    rw (whole, le→not_ltb (2 ^ 32 - 1 - n) (2 ^ 31) (omega arith)) (ap negsuc (omega arith))

read_shorts-shorts_image :
    (ds s : List ℕ)
    → All (λ d. d < 65536) ds
    → read_shorts (length ds) (shorts_image ds ++ s) ≡ some (ds, s)
unfolding read_shorts shorts_image
read_shorts-shorts_image [] s fits = refl
read_shorts-shorts_image (d ∷ ds) s (fit, fits) =
    rw
      (
        append_assoc (to_bytes 2 d) (shorts_image ds) s,
        read_uint-to_bytes 2 d (shorts_image ds ++ s) fit,
        read_shorts-shorts_image ds s fits,
      )
      refl

read_image-image :
    (read : ℕ → List ℕ → Option (List ℕ × List ℕ)) (w h : ℕ) (values bytes s : List ℕ)
    → w < u32_mod
    → h < u32_mod
    → length values < u32_mod
    → read (length values) (bytes ++ s) ≡ some (values, s)
    → read_image read
        (to_bytes 4 w ++ (to_bytes 4 h ++ (to_bytes 4 (length values) ++ (bytes ++ s))))
      ≡ some ((w, h, values), s)
unfolding read_image
read_image-image read w h values bytes s w_lt h_lt n_lt got =
    rw
      (
        read_uint-to_bytes 4 w (to_bytes 4 h ++ (to_bytes 4 (length values) ++ (bytes ++ s))) w_lt,
        read_uint-to_bytes 4 h (to_bytes 4 (length values) ++ (bytes ++ s)) h_lt,
        read_uint-to_bytes 4 (length values) (bytes ++ s) n_lt,
        got,
      )
      refl

-- The bytes of a frame before those that follow it, without the casts.
abbrev image_then : RawDepthFrame × RawColorFrame → List ℕ → List ℕ
image_then (depth, color) s =
    to_bytes 8 depth.timestamp_ns
    ++ (to_bytes 4 (to_u32 depth.width)
        ++ (to_bytes 4 (to_u32 depth.height)
            ++ (to_bytes 4 (length depth.samples)
                ++ (shorts_image depth.samples
                    ++ (to_bytes 4 (to_u32 color.width)
                        ++ (to_bytes 4 (to_u32 color.height)
                            ++ (to_bytes 4 (length color.samples) ++ (color.samples ++ s))))))))

frame_image-append :
    (frame : RawDepthFrame × RawColorFrame) (s : List ℕ)
    → IsTyped frame
    → frame_image frame.0 frame.1 ++ s ≡ image_then frame s
unfolding frame_image
frame_image-append (depth, color) s typed =
    let whole : length depth.samples % u32_mod ≡ length depth.samples =
      omega (arith, typed.depth_size) in
    let whole' : length color.samples % u32_mod ≡ length color.samples =
      omega (arith, typed.color_size) in
    rw
      (
        whole,
        whole',
        take_all (length depth.samples) depth.samples (omega arith),
        take_all (length color.samples) color.samples (omega arith),
      )
      (simp append_assoc refl)

pub read_frame-image :
    (id : ℕ) (frame : RawDepthFrame × RawColorFrame) (s : List ℕ)
    → IsTyped frame
    → read_frame id (frame_image frame.0 frame.1 ++ s) ≡ some (played id frame, s)
unfolding read_frame
read_frame-image id (depth, color) s typed =
    let tail =
      to_bytes 4 (to_u32 color.width)
      ++ (to_bytes 4 (to_u32 color.height)
          ++ (to_bytes 4 (length color.samples) ++ (color.samples ++ s))) in
    let depths =
      read_image-image read_shorts (to_u32 depth.width) (to_u32 depth.height) depth.samples
        (shorts_image depth.samples) tail (to_u32-lt depth.width) (to_u32-lt depth.height)
        typed.depth_size (read_shorts-shorts_image depth.samples tail typed.depths) in
    let colors =
      read_image-image split_at (to_u32 color.width) (to_u32 color.height) color.samples
        color.samples s (to_u32-lt color.width) (to_u32-lt color.height) typed.color_size
        (split_at-append color.samples s) in
    ap (read_frame id) (frame_image-append (depth, color) s typed)
    ∙ rw
        (
          read_uint-to_bytes 8 depth.timestamp_ns _ typed.time,
          depths,
          colors,
          to_i32-to_u32 depth.width typed.depth_width,
          to_i32-to_u32 depth.height typed.depth_height,
          to_i32-to_u32 color.width typed.color_width,
          to_i32-to_u32 color.height typed.color_height,
        )
        refl
