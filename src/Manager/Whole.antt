-- ===== src/Manager/Whole.antt =====
-- `processRawDepthFrame` as a whole: a frame comes out, whole and without holes.
use caldera_sandbox.Base.{
  ℕ, ◌*◌, ◌≤◌, ◌≡◌, ◌⊎◌, refl, ap, sym, ◌∙◌, true, Option, none, some, List, All, map, arith,
  length, take_all,
}
use caldera_sandbox.Base.Int.{ℤ, pos, pos_part}
use caldera_sandbox.Base.Words.{inc64}
use caldera_sandbox.Base.Float.{Float}
use caldera_sandbox.World.{WorldFrame}
use caldera_sandbox.Sensor.Data.{RawDepthFrame}
use caldera_sandbox.Fusion.Accumulator.{FusionAccumulator}
use caldera_sandbox.Shm.Lifecycle.{IsWellFormed}
use caldera_sandbox.Manager.Layers.{normalized, sized, layer_of, fuse_frame}
use caldera_sandbox.Manager.Frame.{ProcessingManager, process_raw_depth_frame}
use caldera_sandbox.Manager.Produced.{
  metrics-some, length-map, length-normalized, normalized-All, fuse_frame-some,
}
use caldera_sandbox.Manager.Ready.{bind-some, IsReady, staged_heights-some, area-eq}

module _ {F : Type 0} ⦃f : Float F⦄ (sqrt : F → F) (floor : F → ℕ) (round : F → ℤ) {S : Type 0}
    (filter : S → List F → ℤ → ℤ → List F × S) (raw : RawDepthFrame)
    (m : ProcessingManager F S) where
  open f use {ratio, is_finite}

  -- The frame of the raw frame, with finite heights alone.
  pub record IsFrame (w h : ℕ) (bits : F → ℕ) (frame : WorldFrame) : Type 0 where
    pub time : frame.timestamp_ns ≡ raw.timestamp_ns
    pub id : frame.frame_id ≡ m.frame_counter
    pub width : frame.height_map.width ≡ pos w
    pub height : frame.height_map.height ≡ pos h
    pub whole : IsWellFormed frame.height_map
    pub finite :
        (vs : List F) × (frame.height_map.data_words ≡ map bits vs)
        × All (λ v. is_finite v ≡ true) vs

  fuse_frame-ready :
      (w h : ℕ) (ids : ℕ × ℕ) (cs : Option (List F) × Option (List F)) (values out : List F)
      → IsReady sqrt floor round filter raw m w h
      → m.duplicate ≡ none
      → length values ≡ w * h
      → (cs.0 ≡ none) ⊎ ((c : List F) × (cs.0 ≡ some c) × (w * h ≤ length c))
      → (a : FusionAccumulator F) × (fuse_frame m.frame_counter ids raw.width raw.height cs
            m.duplicate values out m.fusion
          ≡ some (normalized values, a))
  unfolding layer_of
  fuse_frame-ready w h ids cs values out ready single size enough =
      let (a, e) =
        fuse_frame-some m.frame_counter ids w h cs values out m.fusion ready.w_le ready.h_le
          (record {
            width = refl;
            height = refl;
            heights = refl;
            enough = omega (arith, size);
            confidence = enough;
          }) in
      (
        a,
        ap (λ x. fuse_frame m.frame_counter ids raw.width raw.height cs x values out m.fusion)
              single
            ∙ ap (λ z. fuse_frame m.frame_counter ids z raw.height cs none values out m.fusion)
                ready.width
            ∙ ap (λ z. fuse_frame m.frame_counter ids (pos w) z cs none values out m.fusion)
                ready.height
            ∙ e
            ∙ ap (λ vs. some (normalized vs, a)) (take_all (w * h) values (omega (arith, size))),
      )

  -- The world frame with these heights.
  abbrev pub world_frame : (F → ℕ) → List F → WorldFrame
  world_frame bits fused = record {
    timestamp_ns = raw.timestamp_ns;
    frame_id = m.frame_counter;
    height_map = record { width = raw.width; height = raw.height; data_words = map bits fused };
    checksum = 0;
  }

  module _ {D : Type 0} ⦃d : Float D⦄ (widen : F → D) (narrow : D → F) (bits : F → ℕ)
      (dup_id : ℕ → ℕ) where
    -- When the layers of every height map can be fused, to enough values for the metrics, a frame comes out.
    pub process-some :
        (w h : ℕ) (cs : Option (List F) × Option (List F)) (R : WorldFrame → Type 0)
        → IsReady sqrt floor round filter raw m w h
        → ((values : List F)
            → length values ≡ w * h
            → (c : List F × FusionAccumulator F) × (fuse_frame m.frame_counter
                  (raw.sensor_id, dup_id raw.sensor_id)
                  raw.width
                  raw.height
                  cs
                  m.duplicate
                  values
                  (sized (pos_part raw.width * pos_part raw.height) m.fused_heights)
                  m.fusion
                ≡ some c)
              × (w * h ≤ length c.0)
              × R (world_frame bits c.0))
        → (b : WorldFrame × ProcessingManager F S) × (process_raw_depth_frame widen narrow sqrt
              floor round bits dup_id filter cs raw m
            ≡ some b)
          × (R b.0 × (b.1.frame_counter ≡ inc64 m.frame_counter))
    unfolding process_raw_depth_frame
    process-some w h cs R ready fuses =
        let (b₁, e₁, size) = staged_heights-some sqrt floor round filter raw m w h ready in
        let (c, e₂, enough, good) = fuses b₁.0 size in
        let (measures, e₃) =
          metrics-some widen narrow m.metrics_enabled c.0 (pos_part raw.width) (pos_part raw.height)
            m.measures (omega (arith, enough, area-eq sqrt floor round filter raw m w h ready)) in
        rw (e₁, e₂)
          (bind-some _
            (λ (b : WorldFrame × ProcessingManager F S).
              R b.0 × (b.1.frame_counter ≡ inc64 m.frame_counter))
            e₃ (good, refl))

    -- A raw frame whose sides are not negative, whose area is an `int` and so is the index of every column
    -- past its last row; a manager that is ready for it, that is, whose stages find the filter they need,
    -- whose deviation the fast kernel can use and whose filter keeps the size of a map; no duplicate layer;
    -- confidences, if there are any, that reach over the frame; and floats whose zero is finite. Then the
    -- raw frame is processed without a fault, and the frame for the callback has its time, the number of the
    -- frame and its size, a value for each pixel, and no value that is not finite. The frame is counted.
    pub process_raw_depth_frame-IsFrame :
        (w h : ℕ) (cs : Option (List F) × Option (List F))
        → IsReady sqrt floor round filter raw m w h
        → m.duplicate ≡ none
        → (cs.0 ≡ none) ⊎ ((c : List F) × (cs.0 ≡ some c) × (w * h ≤ length c))
        → is_finite (ratio 0 1) ≡ true
        → (b : WorldFrame × ProcessingManager F S) × (process_raw_depth_frame widen narrow sqrt
              floor round bits dup_id filter cs raw m
            ≡ some b)
          × (IsFrame w h bits b.0 × (b.1.frame_counter ≡ inc64 m.frame_counter))
    process_raw_depth_frame-IsFrame w h cs ready single enough zero_finite =
        process-some w h cs (IsFrame w h bits) ready (λ values size.
          let (a, e) =
            fuse_frame-ready w h (raw.sensor_id, dup_id raw.sensor_id) cs values
              (sized (pos_part raw.width * pos_part raw.height) m.fused_heights) ready single size
              enough in
          let fused = normalized values in
          let fused_size : length fused ≡ w * h = length-normalized values ∙ size in
          (
            (fused, a),
            e,
            omega (arith, fused_size),
            record {
              time = refl;
              id = refl;
              width = ready.width;
              height = ready.height;
              whole =
                  length-map bits fused
                  ∙ fused_size
                  ∙ sym (area-eq sqrt floor round filter raw m w h ready);
              finite = (fused, refl, normalized-All values zero_finite);
            },
          ))
