-- ===== src/Sensor/Replay.antt =====
-- A whole recording, from its start to its load by the mock sensor.
use caldera_sandbox.Base.{
  ℕ, ◌+◌, ◌%◌, ◌≤◌, ◌<◌, ◌==◌, ◌&&◌, if◌then◌else◌, zero, suc, if-either, take, take-append_le, ◌≡◌,
  refl, ap, sym, ◌∙◌, true, false, some, List, [], ◌∷◌, ◌++◌, arith, length, drop, All, map,
  append_assoc, append-nil,
}
use mathlib.Core.Path.{subst}
use caldera_sandbox.Base.Words.{u32_mod, u64_mod, inc64}
use caldera_sandbox.Base.Bytes.{to_bytes, read_uint-to_bytes}
use caldera_sandbox.Sensor.Data.{RawDepthFrame, RawColorFrame}
use caldera_sandbox.Sensor.Recorder.{
  SensorRecorder, file_magic, file_version, header_image, frame_image, start_recording, write_count,
  stop_recording, record_frames, write_out, flush, flush_thirtieth, record_frame,
}
use caldera_sandbox.Sensor.Loader.{
  FrameData, loaded, read_frames, load_frames, check_version, check_magic, load_data_file,
}
use caldera_sandbox.Sensor.Recording.{IsTyped, played, read_frame-image}

-- A recorder at work, whose file and stream together hold `content`.
record IsWriting (content : List ℕ) (n : ℕ) (r : SensorRecorder) : Type 0 where
  file_open : r.file_open ≡ true
  recording : r.is_recording ≡ true
  count : r.frame_count ≡ n
  all : r.disk ++ r.pending ≡ content

take_append_drop : (n : ℕ) (xs : List ℕ) → take n xs ++ drop n xs ≡ xs
take_append_drop zero xs = refl
take_append_drop (suc n) [] = refl
take_append_drop (suc n) (x ∷ xs) = ap (◌∷◌ x) (take_append_drop n xs)

write_out-IsWriting :
    (spill : ℕ) (content : List ℕ) (n : ℕ) (r : SensorRecorder)
    → IsWriting content n r
    → IsWriting content n (write_out spill r)
unfolding write_out
write_out-IsWriting spill content n r w = record {
  file_open = w.file_open;
  recording = w.recording;
  count = w.count;
  all =
      append_assoc r.disk (take spill r.pending) (drop spill r.pending)
      ∙ ap (λ p. r.disk ++ p) (take_append_drop spill r.pending)
      ∙ w.all;
}

flush_thirtieth-IsWriting :
    (content : List ℕ) (n : ℕ) (r : SensorRecorder)
    → IsWriting content n r
    → IsWriting content n (flush_thirtieth r)
unfolding flush_thirtieth flush
flush_thirtieth-IsWriting content n r w =
    if-either (IsWriting content n) (r.frame_count % 30 == 0) (flush r) r
      (record {
        file_open = w.file_open;
        recording = w.recording;
        count = w.count;
        all = append-nil (r.disk ++ r.pending) ∙ w.all;
      })
      w

record_frame-IsWriting :
    (spill : ℕ) (depth : RawDepthFrame) (color : RawColorFrame) (content : List ℕ) (n : ℕ)
    (r : SensorRecorder)
    → n + 1 < u64_mod
    → IsWriting content n r
    → IsWriting (content ++ frame_image depth color) (n + 1) (record_frame spill depth color r)
unfolding record_frame
record_frame-IsWriting spill depth color content n r small w =
    let image = frame_image depth color in
    let written = record r { pending = r.pending ++ image; frame_count = inc64 r.frame_count } in
    let next : inc64 n ≡ n + 1 = omega arith in
    let both : (r.is_recording && r.file_open) ≡ true = rw (w.recording, w.file_open) refl in
    subst
      (λ b.
        IsWriting (content ++ image) (n + 1)
          (if◌then◌else◌ {A = SensorRecorder} b (flush_thirtieth (write_out spill written)) r))
      (sym both)
      (flush_thirtieth-IsWriting (content ++ image) (n + 1) (write_out spill written) (
        write_out-IsWriting spill (content ++ image) (n + 1) written (record {
          file_open = w.file_open;
          recording = w.recording;
          count = ap inc64 w.count ∙ next;
          all = sym (append_assoc r.disk r.pending image) ∙ ap (λ c. c ++ image) w.all;
        })))

abbrev images : List (RawDepthFrame × RawColorFrame) → List ℕ
images [] = []
images ((depth, color) ∷ frames) = frame_image depth color ++ images frames

record_frames-IsWriting :
    (spill : ℕ → ℕ) (frames : List (RawDepthFrame × RawColorFrame)) (content : List ℕ) (n : ℕ)
    (r : SensorRecorder)
    → n + length frames < u64_mod
    → IsWriting content n r
    → IsWriting (content ++ images frames) (n + length frames) (record_frames spill frames r)
unfolding record_frames
record_frames-IsWriting spill [] content n r small w = record {
  file_open = w.file_open;
  recording = w.recording;
  count = w.count ∙ omega arith;
  all = w.all ∙ sym (append-nil content);
}
record_frames-IsWriting spill ((depth, color) ∷ frames) content n r small w =
    let image = frame_image depth color in
    let next = record_frame (spill r.frame_count) depth color r in
    let rest =
      record_frames-IsWriting spill frames (content ++ image) (n + 1) next (omega arith)
        (record_frame-IsWriting (spill r.frame_count) depth color content n r (omega arith) w) in
    record {
      file_open = rest.file_open;
      recording = rest.recording;
      count = rest.count ∙ omega arith;
      all = rest.all ∙ append_assoc content image (images frames);
    }

write_count_lem :
    (n : ℕ) (s : List ℕ) → write_count n (header_image 0 ++ s) ≡ header_image (n % u32_mod) ++ s
unfolding write_count header_image to_bytes
write_count_lem n s = refl

read_frames-images :
    (id : ℕ) (frames : List (RawDepthFrame × RawColorFrame))
    → All IsTyped frames
    → read_frames id (length frames) (images frames) ≡ some (map (played id) frames)
unfolding read_frames
read_frames-images id [] typed = refl
read_frames-images id (frame ∷ frames) (one, rest) =
    rw (read_frame-image id frame (images frames) one, read_frames-images id frames rest) refl

-- A header's bytes are followed by the frames, which the loader reaches.
load_data_file-header :
    (id n : ℕ) (s : List ℕ)
    → n < u32_mod
    → load_data_file id (header_image n ++ s) ≡ load_frames id (some (n, to_bytes 20 0 ++ s))
unfolding load_data_file header_image check_magic check_version
load_data_file-header id n s small =
    rw
      (
        append_assoc (to_bytes 4 file_magic)
            (to_bytes 4 file_version ++ (to_bytes 4 n ++ to_bytes 20 0)) s,
        append_assoc (to_bytes 4 file_version) (to_bytes 4 n ++ to_bytes 20 0) s,
        append_assoc (to_bytes 4 n) (to_bytes 20 0) s,
        read_uint-to_bytes 4 file_magic
            (to_bytes 4 file_version ++ (to_bytes 4 n ++ (to_bytes 20 0 ++ s))) (omega arith),
        read_uint-to_bytes 4 file_version (to_bytes 4 n ++ (to_bytes 20 0 ++ s)) (omega arith),
        read_uint-to_bytes 4 n (to_bytes 20 0 ++ s) small,
      )
      refl

drop-reserved : (s : List ℕ) → drop 20 (to_bytes 20 0 ++ s) ≡ s
unfolding to_bytes
drop-reserved s = refl

load_frames_lem :
    (id n : ℕ) (s : List ℕ) (frames : List FrameData)
    → read_frames id n (drop 20 s) ≡ some frames
    → load_frames id (some (n, s)) ≡ loaded frames
unfolding load_frames
load_frames_lem id n s frames got = rw (load_frames, got) refl

load_frames-images :
    (id n : ℕ) (s : List ℕ) (frames : List FrameData)
    → read_frames id n s ≡ some frames
    → load_frames id (some (n, to_bytes 20 0 ++ s)) ≡ loaded frames
load_frames-images id n s frames got =
    load_frames_lem id n (to_bytes 20 0 ++ s) frames (ap (read_frames id n) (drop-reserved s) ∙ got)

started-IsWriting :
    (spill : ℕ) (r : SensorRecorder)
    → r.is_recording ≡ false
    → IsWriting (header_image 0) 0 (start_recording true spill r).1
unfolding start_recording
started-IsWriting spill r idle = rw idle (
    write_out-IsWriting spill (header_image 0) 0
      (record {
        disk = [];
        pending = header_image 0;
        file_open = true;
        is_recording = true;
        frame_count = 0;
      })
      (record { file_open = refl; recording = refl; count = refl; all = refl }))

-- The recorder after it is started and given frames.
abbrev pub recorded :
    ℕ → (ℕ → ℕ) → List (RawDepthFrame × RawColorFrame) → SensorRecorder → SensorRecorder
recorded first spill frames r = record_frames spill frames (start_recording true first r).1

recorded-IsWriting :
    (first : ℕ) (spill : ℕ → ℕ) (frames : List (RawDepthFrame × RawColorFrame)) (r : SensorRecorder)
    → r.is_recording ≡ false
    → length frames < u32_mod
    → IsWriting (header_image 0 ++ images frames) (length frames) (recorded first spill frames r)
recorded-IsWriting first spill frames r idle few =
    let w =
      record_frames-IsWriting spill frames (header_image 0) 0 (start_recording true first r).1
        (omega arith) (started-IsWriting first r idle) in
    record {
      file_open = w.file_open;
      recording = w.recording;
      count = w.count ∙ omega arith;
      all = w.all;
    }

stop_recording-disk :
    (content : List ℕ) (n : ℕ) (r : SensorRecorder)
    → IsWriting content n r
    → (stop_recording r).disk ≡ write_count n content
unfolding stop_recording
stop_recording-disk content n r w =
    rw (w.recording, w.file_open)
      (ap (λ k. write_count k (r.disk ++ r.pending)) w.count ∙ ap (write_count n) w.all)

-- A recorder that is not recording is started and stopped around fewer than 2^32 frames whose values have
-- their types, whatever the stream writes out by itself in between: the file loads without failing, as those
-- frames in their order, with the numbers of the depth frame kept, and those of the color frame but its time,
-- which is the depth frame's.
pub stop_recording-load_data_file :
    (id first : ℕ) (spill : ℕ → ℕ) (r : SensorRecorder)
    (frames : List (RawDepthFrame × RawColorFrame))
    → r.is_recording ≡ false
    → length frames < u32_mod
    → All IsTyped frames
    → load_data_file id (stop_recording (recorded first spill frames r)).disk
      ≡ loaded (map (played id) frames)
stop_recording-load_data_file id first spill r frames idle few typed =
    let n = length frames in
    let fits : n % u32_mod ≡ n = omega arith in
    ap (load_data_file id) (
      stop_recording-disk (header_image 0 ++ images frames) n (recorded first spill frames r)
        (recorded-IsWriting first spill frames r idle few))
    ∙ ap (load_data_file id) (write_count_lem n (images frames))
    ∙ ap (λ k. load_data_file id (header_image k ++ images frames)) fits
    ∙ load_data_file-header id n (images frames) few
    ∙ load_frames-images id n (images frames) _ (read_frames-images id frames typed)

read_frames-none : (id : ℕ) (s : List ℕ) → read_frames id 0 s ≡ some []
unfolding read_frames
read_frames-none id s = refl

take-header : (s : List ℕ) → take 32 (header_image 0 ++ s) ≡ header_image 0
unfolding header_image to_bytes
take-header s = refl

-- A file that has at least the header's bytes starts with the header.
begins-header :
    (disk pending s : List ℕ)
    → 32 ≤ length disk
    → disk ++ pending ≡ header_image 0 ++ s
    → disk ≡ header_image 0 ++ drop 32 disk
begins-header disk pending s long e =
    let head : take 32 disk ≡ header_image 0 =
      sym (take-append_le 32 disk pending long) ∙ ap (take 32) e ∙ take-header s in
    sym (take_append_drop 32 disk) ∙ ap (λ h. h ++ drop 32 disk) head

-- A recorder that is not recording is started and given fewer than 2^32 frames, and the stream has written
-- out at least the 32 bytes of the header, whatever else: a file that is loaded before the recording is
-- stopped loads without failing, as no frame at all.
pub record_frames-load_data_file :
    (id first : ℕ) (spill : ℕ → ℕ) (r : SensorRecorder)
    (frames : List (RawDepthFrame × RawColorFrame))
    → r.is_recording ≡ false
    → length frames < u32_mod
    → 32 ≤ length (recorded first spill frames r).disk
    → load_data_file id (recorded first spill frames r).disk ≡ loaded []
record_frames-load_data_file id first spill r frames idle few long =
    let r' = recorded first spill frames r in
    let w = recorded-IsWriting first spill frames r idle few in
    let rest = drop 32 r'.disk in
    ap (load_data_file id) (begins-header r'.disk r'.pending (images frames) long w.all)
    ∙ load_data_file-header id 0 rest (omega arith)
    ∙ load_frames-images id 0 rest [] (read_frames-none id rest)
