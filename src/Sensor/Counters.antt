-- ===== src/Sensor/Counters.antt =====
-- The counters of the synthetic sensor, whatever is called.
use caldera_sandbox.Base.{
  ℕ, suc, ◌+◌, ◌≤◌, ◌<◌, ◌≡◌, refl, ap, Bool, true, false, not, ◌&&◌, List, [], ◌∷◌, arith, length,
  ltb, leb, if◌then◌else◌, none,
}
use caldera_sandbox.Base.Words.{inc64, u64_mod}
use caldera_sandbox.Base.Float.{Float}
use caldera_sandbox.Sensor.Synthetic.{
  Config, FaultInjectionConfig, SyntheticSensor, new_sensor, open_sensor, close_sensor, pause,
  resume, set_stop_after, configure_fault_injection, drops, stop_if_done, fill_pattern, count_frame,
  make_frame, turn,
}

-- The calls of other threads, and a turn of the sensor's own.
pub data Event : Type 0 where
  opened closed paused resumed : Event
  stop_after_set : ℕ → Event
  configured : FaultInjectionConfig → Event
  callback_set : Bool → Event
  turned : ℕ → Event

-- At most `n` frames were made; each was counted, and at most once as emitted or dropped.
pub record IsCounted (n : ℕ) (s : SyntheticSensor) : Type 0 where
  pub made : s.frame_counter ≤ n
  pub all : s.produced ≡ s.frame_counter
  pub parts : s.emitted + s.dropped ≤ s.produced

if-IsCounted :
    (c : Bool) (n : ℕ) (a b : SyntheticSensor)
    → IsCounted n a
    → IsCounted n b
    → IsCounted n (if c then a else b)
if-IsCounted true n a b p q = p
if-IsCounted false n a b p q = q

stop_if_done-IsCounted :
    (n : ℕ) (s : SyntheticSensor) → IsCounted n s → IsCounted n (stop_if_done s)
unfolding stop_if_done
stop_if_done-IsCounted n s h =
    if-IsCounted (ltb 0 s.stop_after && leb s.stop_after s.frame_counter) n _ s
      (record { made = h.made; all = h.all; parts = h.parts }) h

-- The counters alone matter.
same-IsCounted :
    (n : ℕ) (a b : SyntheticSensor)
    → IsCounted n a
    → a.frame_counter ≡ b.frame_counter
    → a.produced ≡ b.produced
    → a.emitted ≡ b.emitted
    → a.dropped ≡ b.dropped
    → IsCounted (suc n) b
same-IsCounted n a b h c p e d = record {
  made = omega (arith, h.made);
  all = omega (arith, h.all);
  parts = omega (arith, h.parts);
}

count_parts :
    (drop callback : Bool) (e d p : ℕ)
    → e + d ≤ p
    → p + 1 < u64_mod
    → (if not drop && callback then inc64 e else e) + (if drop then inc64 d else d) ≤ inc64 p
count_parts true callback e d p h small = omega arith
count_parts false true e d p h small = omega arith
count_parts false false e d p h small = omega arith

count_frame-IsCounted :
    (n : ℕ) (buf : List ℕ) (s : SyntheticSensor)
    → n + 1 < u64_mod
    → IsCounted n s
    → IsCounted (suc n) (count_frame buf s)
unfolding count_frame
count_frame-IsCounted n buf s small h = record {
  made = omega (arith, h.made);
  all = ap inc64 h.all;
  parts =
      count_parts (drops s) s.callback s.emitted s.dropped s.produced h.parts
        (omega (arith, h.made, h.all));
}

module _ {F : Type 0} ⦃f : Float F⦄ (sqrt round : F → F) (cfg : Config) where
  unfoldable pub step : Event → SyntheticSensor → SyntheticSensor
  unfolding open_sensor close_sensor pause resume set_stop_after configure_fault_injection turn
  step opened s = open_sensor cfg s
  step closed s = close_sensor s
  step paused s = pause s
  step resumed s = resume s
  step (stop_after_set n) s = set_stop_after n s
  step (configured c) s = configure_fault_injection c s
  step (callback_set b) s = record s { callback = b }
  step (turned time) s = (turn sqrt round cfg time s).1

  unfoldable pub steps : List Event → SyntheticSensor → SyntheticSensor
  unfolding step
  steps [] s = s
  steps (e ∷ es) s = steps es (step e s)

  make_frame-IsCounted :
      (n time : ℕ) (s : SyntheticSensor)
      → n + 1 < u64_mod
      → IsCounted n s
      → IsCounted (suc n) (make_frame sqrt round cfg time s).1
  unfolding make_frame
  make_frame-IsCounted n time s small h =
      stop_if_done-IsCounted (suc n) _
        (count_frame-IsCounted n (fill_pattern sqrt round cfg) s small h)

  kept : (n : ℕ) (s : SyntheticSensor) → IsCounted n s → IsCounted (suc n) s
  kept n s h = same-IsCounted n s s h refl refl refl refl

  step-IsCounted :
      (n : ℕ) (e : Event) (s : SyntheticSensor)
      → n + 1 < u64_mod
      → IsCounted n s
      → IsCounted (suc n) (step e s)
  unfolding step open_sensor close_sensor pause resume set_stop_after configure_fault_injection turn
  step-IsCounted n opened s small h =
      if-IsCounted s.running (suc n) _ _ (kept n s h) (same-IsCounted n s _ h refl refl refl refl)
  step-IsCounted n closed s small h =
      if-IsCounted s.running (suc n) _ _ (same-IsCounted n s _ h refl refl refl refl) (kept n s h)
  step-IsCounted n paused s small h =
      if-IsCounted s.running (suc n) _ _ (same-IsCounted n s _ h refl refl refl refl) (kept n s h)
  step-IsCounted n resumed s small h =
      if-IsCounted s.running (suc n) _ _ (same-IsCounted n s _ h refl refl refl refl) (kept n s h)
  step-IsCounted n (stop_after_set k) s small h = same-IsCounted n s _ h refl refl refl refl
  step-IsCounted n (configured c) s small h = same-IsCounted n s _ h refl refl refl refl
  step-IsCounted n (callback_set b) s small h = same-IsCounted n s _ h refl refl refl refl
  step-IsCounted n (turned time) s small h = turned_lem (s.running && not s.paused)
    where
      turned_lem :
          (c : Bool)
          → IsCounted (suc n) (if c then make_frame sqrt round cfg time s else (none, s)).1
      turned_lem true = make_frame-IsCounted n time s small h
      turned_lem false = kept n s h

  steps_lem :
      (n : ℕ) (es : List Event) (s : SyntheticSensor)
      → n + length es < u64_mod
      → IsCounted n s
      → IsCounted (n + length es) (steps es s)
  unfolding steps
  steps_lem n [] s small h = record { made = omega (arith, h.made); all = h.all; parts = h.parts }
  steps_lem n (e ∷ es) s small h =
      let size : n + suc (length es) ≡ suc n + length es = omega arith in
      rw size (steps_lem (suc n) es (step e s) (omega arith) (step-IsCounted n e s (omega arith) h))

  -- A new sensor, after fewer than 2^64 calls and turns of its thread in any order: it made at most that
  -- many frames, every frame was counted as produced, and at most once as emitted or as dropped.
  pub steps-IsCounted :
      (es : List Event) → length es < u64_mod → IsCounted (length es) (steps es new_sensor)
  steps-IsCounted es small =
      let none_yet : 0 + length es ≡ length es = omega arith in
      rw (← none_yet) (
        steps_lem 0 es new_sensor (omega arith)
          (record { made = omega arith; all = refl; parts = omega arith }))
