-- ===== src/Sensor/Rounds.antt =====
-- The rounds of the mock sensor's thread: the frames they play, and modes that play alike.
use caldera_sandbox.Base.{
  ℕ, zero, suc, ◌+◌, ◌<◌, ◌≡◌, ◌≢◌, inl, inr, refl, ap, ◌∙◌, Bool, true, false, not, ◌||◌,
  Bool-cases, Option, none, List, [], ◌∷◌, arith, leb, length, get_elem?, All, if◌then◌else◌,
}
use caldera_sandbox.Base.Int.{ℤ, pos_part}
use caldera_sandbox.Sensor.Loader.{FrameData}
use caldera_sandbox.Sensor.Playback.{
  PlaybackMode, single_frame, loop, MockSensorDevice, is_finished, advance, Played, rounds,
  playback_loop,
}

get_elem?-lt {ℓ} : {A : Type ℓ} (xs : List A) (i : ℕ) → i < length xs → get_elem? xs i ≢ none
get_elem?-lt [] i h = absurd (omega arith)
get_elem?-lt (x ∷ xs) zero h = λ e. cc
get_elem?-lt (x ∷ xs) (suc i) h = get_elem?-lt xs i (omega arith)

advance-lt :
    (mode : PlaybackMode) (limit : ℤ) (size current loops : ℕ)
    → 0 < size
    → (advance mode limit size current loops).0 < size
unfolding advance
advance-lt mode limit size current loops h = ground arith

All-if_nil {ℓ κ} :
    {A : Type ℓ} (P : A → Type κ) (leave : Bool) (xs : List A)
    → All P xs
    → All P (if leave then [] else xs)
All-if_nil P true xs all = tt
All-if_nil P false xs all = all

rounds-All :
    (mode : PlaybackMode) (limit : ℤ) (frames : List FrameData) (flags : List Bool)
    (current loops : ℕ)
    → current < length frames
    → All (λ e. e ≢ none) (rounds mode limit frames flags current loops).emitted
unfolding rounds
rounds-All mode limit frames [] current loops h = tt
rounds-All mode limit frames (false ∷ flags) current loops h = tt
rounds-All mode limit frames (true ∷ flags) current loops h =
    let size = length frames in
    let (next, passes, leave) = advance mode limit size current loops in
    let rest =
      rounds-All mode limit frames flags next passes
        (advance-lt mode limit size current loops (omega arith)) in
    (get_elem?-lt frames current h, All-if_nil _ leave _ rest)

pub lt→not_leb : (a b : ℕ) → b < a → leb a b ≡ false
lt→not_leb a b h = ground arith

non_empty : (callback : Bool) (size : ℕ) → (not callback || leb size 0) ≡ false → 0 < size
non_empty callback size e = ground arith

-- Whatever the device, its mode and the times at which it is closed, every frame that the thread gives to
-- the callback is one of those loaded: no index leaves them.
pub playback_loop-All :
    (flags : List Bool) (d : MockSensorDevice)
    → All (λ e. e ≢ none) (playback_loop flags d).0.emitted
unfolding playback_loop
playback_loop-All flags d =
    let size = length d.frames in
    elim (Bool-cases (not d.frame_callback || leb size 0)) [
      | inl e ↦ rw e tt
      | inr e ↦ rw e (
          rounds-All d.playback_mode d.loop_count d.frames flags 0 0
            (non_empty d.frame_callback size e))
    ]

-- A round before the rounds that follow it, if any do.
abbrev pub before : Option FrameData → Bool → Played → Played
before frame leave rest = record {
  emitted = frame ∷ (if leave then [] else rest.emitted);
  running = if leave then false else rest.running;
}

pub rounds-true :
    (mode : PlaybackMode) (k : ℤ) (frames : List FrameData) (flags : List Bool) (c loops : ℕ)
    → (let step = advance mode k (length frames) c loops in
        rounds mode k frames (true ∷ flags) c loops
        ≡ before (get_elem? frames c) step.2 (rounds mode k frames flags step.0 step.1))
unfolding rounds
rounds-true mode k frames flags c loops = refl

advance-is_finished :
    (m m' : PlaybackMode) (k k' : ℤ) (size c loops : ℕ)
    → ((n : ℕ) → is_finished m k n ≡ is_finished m' k' n)
    → advance m k size c loops ≡ advance m' k' size c loops
unfolding advance
advance-is_finished m m' k k' size c loops same = rw (same (loops + 1)) refl

-- A mode's end is that of another.
rounds-is_finished :
    (m m' : PlaybackMode) (k k' : ℤ) (frames : List FrameData) (flags : List Bool)
    (current loops : ℕ)
    → ((n : ℕ) → is_finished m k n ≡ is_finished m' k' n)
    → rounds m k frames flags current loops ≡ rounds m' k' frames flags current loops
unfolding rounds
rounds-is_finished m m' k k' frames [] current loops same = refl
rounds-is_finished m m' k k' frames (false ∷ flags) current loops same = refl
rounds-is_finished m m' k k' frames (true ∷ flags) current loops same =
    let size = length frames in
    let (next, passes, leave) = advance m' k' size current loops in
    let o = get_elem? frames current in
    ap (λ step. before o step.2 (rounds m k frames flags step.0 step.1))
      (advance-is_finished m m' k k' size current loops same)
    ∙ ap (before o leave) (rounds-is_finished m m' k k' frames flags next passes same)

same_end : (k : ℤ) → pos_part k ≡ 0 → (n : ℕ) → is_finished single_frame k n ≡ is_finished loop k n
unfolding is_finished
same_end k endless n = rw endless refl

-- With a loop count that is not positive, as it is unless it is set, the mode for a single frame plays
-- exactly what the endless loop plays, and for as long, at whatever times the device is closed.
pub playback_loop-single_frame :
    (flags : List Bool) (d : MockSensorDevice)
    → pos_part d.loop_count ≡ 0
    → (playback_loop flags (record d { playback_mode = single_frame })).0
      ≡ (playback_loop flags (record d { playback_mode = loop })).0
unfolding playback_loop
playback_loop-single_frame flags d endless =
    ap
      (λ run.
        if not d.frame_callback || leb (length d.frames) 0
        then record { emitted = []; running = false }
        else run)
      (rounds-is_finished single_frame loop d.loop_count d.loop_count d.frames flags 0 0
        (same_end d.loop_count endless))
