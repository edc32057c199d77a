-- ===== src/Sensor/Synthetic.antt =====
-- backend/src/hal/SyntheticSensorDevice.{h,cpp}: the sensor that makes its own depths. The calls of other
-- threads fall between two rounds of its thread; a delay has no effect but its own.
use caldera_sandbox.Base.{
  ℕ, zero, suc, ◌+◌, ◌*◌, ◌/◌, ◌%◌, Bool, true, false, not, ◌&&◌, Option, none, some, List, [], ◌∷◌,
  ltb, leb, ◌==◌, if◌then◌else◌, length, replicate, ◌||◌, ◌-◌,
}
use caldera_sandbox.Base.Int.{pos}
use caldera_sandbox.Base.Words.{inc64}
use caldera_sandbox.Base.Float.{Float}
use caldera_sandbox.Base.Bytes.{to_bytes}
use caldera_sandbox.Checksum.{crc32_bytes}
use caldera_sandbox.Sensor.Data.{RawDepthFrame}
use caldera_sandbox.Sensor.Recorder.{shorts_image}

pub data Pattern : Type 0 where
  ramp constant checker stripes radial : Pattern

-- Width and height are `int`s that are not negative.
pub record Config : Type 0 where
  pub width : ℕ
  pub height : ℕ
  pub pattern : Pattern
  pub constant_value : ℕ
  pub sensor_id : ℕ

pub record FaultInjectionConfig : Type 0 where
  pub drop_every : ℕ
  pub jitter_max_ms : ℕ
  pub seed : ℕ

-- `callback` tells whether one is set, `has_rng` whether the generator has its seed.
pub record SyntheticSensor : Type 0 where
  pub running : Bool
  pub paused : Bool
  pub callback : Bool
  pub frame_counter : ℕ
  pub base_checksum : ℕ
  pub stop_after : ℕ
  pub faults : FaultInjectionConfig
  pub has_rng : Bool
  pub produced : ℕ
  pub emitted : ℕ
  pub dropped : ℕ
  pub reusable_depth : List ℕ

abbrev pub new_sensor : SyntheticSensor
new_sensor = record {
  running = false;
  paused = false;
  callback = false;
  frame_counter = 0;
  base_checksum = 0;
  stop_after = 0;
  faults = record { drop_every = 0; jitter_max_ms = 0; seed = 0xC0FFEE };
  has_rng = false;
  produced = 0;
  emitted = 0;
  dropped = 0;
  reusable_depth = [];
}

-- The start of the thread, which sizes the buffer, goes with `open`.
unfoldable pub open_sensor : Config → SyntheticSensor → SyntheticSensor
open_sensor cfg s =
    let n = cfg.width * cfg.height in
    if s.running then s else record s {
      running = true;
      base_checksum = 0;
      reusable_depth = if length s.reusable_depth == n then s.reusable_depth else replicate n 0;
    }

unfoldable pub close_sensor : SyntheticSensor → SyntheticSensor
close_sensor s = if s.running then record s { running = false; reusable_depth = [] } else s

unfoldable pub pause : SyntheticSensor → SyntheticSensor
pause s = if s.running then record s { paused = true } else s

unfoldable pub resume : SyntheticSensor → SyntheticSensor
resume s = if s.running then record s { paused = false } else s

unfoldable pub set_stop_after : ℕ → SyntheticSensor → SyntheticSensor
set_stop_after frames s = record s { stop_after = frames }

unfoldable pub configure_fault_injection : FaultInjectionConfig → SyntheticSensor → SyntheticSensor
configure_fault_injection faults s = record s { faults = faults; has_rng = false }

-- The values of `n` pixels from the `p`-th on.
unfoldable pub pixels_from : (ℕ → ℕ) → ℕ → ℕ → List ℕ
pixels_from value p zero = []
pixels_from value p (suc n) = value p ∷ pixels_from value (p + 1) n

unfoldable pub compute_crc : List ℕ → ℕ
unfolding crc32_bytes shorts_image to_bytes
compute_crc buf = crc32_bytes (shorts_image buf)

unfoldable pub drops : SyntheticSensor → Bool
drops s = let n = s.faults.drop_every in ltb 0 n && (inc64 s.frame_counter % n == 0)

-- A round's frame counted.
unfoldable pub count_frame : List ℕ → SyntheticSensor → SyntheticSensor
unfolding drops compute_crc
count_frame buf s =
    let drop = drops s in
    record s {
      reusable_depth = buf;
      base_checksum = if s.base_checksum == 0 then compute_crc buf else s.base_checksum;
      produced = inc64 s.produced;
      has_rng = (not drop && ltb 0 s.faults.jitter_max_ms) || s.has_rng;
      emitted = if not drop && s.callback then inc64 s.emitted else s.emitted;
      dropped = if drop then inc64 s.dropped else s.dropped;
      frame_counter = inc64 s.frame_counter;
    }

-- The end of a round: the sensor pauses itself once the frames asked for are made.
unfoldable pub stop_if_done : SyntheticSensor → SyntheticSensor
stop_if_done s =
    if ltb 0 s.stop_after && leb s.stop_after s.frame_counter
    then record s { stop_after = 0; paused = true }
    else s

module _ {F : Type 0} ⦃f : Float F⦄ (sqrt round : F → F) where
  open f use {of_ℕ, truncate, ratio, add, sub, mul, div, lt}

  unfoldable pub radial_value : Config → ℕ → ℕ → ℕ
  radial_value cfg x y =
      let cx = div (of_ℕ (cfg.width - 1)) (ratio 2 1) in
      let cy = div (of_ℕ (cfg.height - 1)) (ratio 2 1) in
      let far = sqrt (add (mul cx cx) (mul cy cy)) in
      let max_dist = if lt far (ratio 1 100_000) then ratio 1 1 else far in
      let dx = sub (of_ℕ x) cx in
      let dy = sub (of_ℕ y) cy in
      let d = div (sqrt (add (mul dx dx) (mul dy dy))) max_dist in
      truncate (round (mul (sub (ratio 1 1) d) (ratio 2000 1)))

  -- The value at column `x` of row `y`.
  unfoldable pub pattern_value : Config → Pattern → ℕ → ℕ → ℕ
  unfolding radial_value
  pattern_value cfg ramp x y = (x + y) % 65536
  pattern_value cfg constant x y = cfg.constant_value
  pattern_value cfg checker x y = if (x / 2 + y / 2) % 2 == 1 then 2000 else 500
  pattern_value cfg stripes x y = if y / 4 % 2 == 1 then 1800 else 600
  pattern_value cfg radial x y = radial_value cfg x y

  -- All the pixels, row by row; the buffer has a place for each.
  unfoldable pub fill_pattern : Config → List ℕ
  unfolding pixels_from pattern_value
  fill_pattern cfg =
      pixels_from (λ p. pattern_value cfg cfg.pattern (p % cfg.width) (p / cfg.width)) 0
        (cfg.width * cfg.height)

  -- A round of `runLoop` at `time`, and the frame given to the callback.
  unfoldable pub make_frame : Config → ℕ → SyntheticSensor → Option RawDepthFrame × SyntheticSensor
  unfolding fill_pattern drops count_frame stop_if_done
  make_frame cfg time s =
      let buf = fill_pattern cfg in
      (
        if not (drops s) && s.callback
            then some (record {
              sensor_id = cfg.sensor_id;
              timestamp_ns = time;
              width = pos cfg.width;
              height = pos cfg.height;
              samples = buf;
            })
            else none,
        stop_if_done (count_frame buf s),
      )

  -- One turn of the thread: nothing while it is paused, or when it does not run.
  unfoldable pub turn : Config → ℕ → SyntheticSensor → Option RawDepthFrame × SyntheticSensor
  unfolding make_frame
  turn cfg time s = if s.running && not s.paused then make_frame cfg time s else (none, s)

  -- A turn at each of the times.
  unfoldable pub turns : Config → List ℕ → SyntheticSensor → SyntheticSensor
  unfolding turn
  turns cfg [] s = s
  turns cfg (time ∷ times) s = turns cfg times (turn cfg time s).1
