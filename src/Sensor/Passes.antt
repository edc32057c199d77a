-- ===== src/Sensor/Passes.antt =====
-- What the mock sensor's thread plays in whole passes over its frames.
use caldera_sandbox.Base.{
  ℕ, zero, suc, ◌+◌, ◌<◌, ◌≡◌, refl, ap, ◌∙◌, Bool, true, false, none, some, List, [], ◌∷◌, ◌++◌,
  arith, leb, lt→ltb, length, get_elem?, map, replicate, if◌then◌else◌, append_assoc, append-nil,
}
use caldera_sandbox.Base.Int.{ℤ, pos}
use caldera_sandbox.Sensor.Loader.{FrameData}
use caldera_sandbox.Sensor.Playback.{
  PlaybackMode, once, loop, MockSensorDevice, close_device, set_frame_callback, is_finished,
  advance, rounds, playback_loop,
}
use caldera_sandbox.Sensor.Rounds.{rounds-true, lt→not_leb}

advance-more :
    (mode : PlaybackMode) (k : ℤ) (size c loops : ℕ)
    → c + 1 < size
    → advance mode k size c loops ≡ (c + 1, loops, false)
unfolding advance
advance-more mode k size c loops h = ground arith

advance-last :
    (mode : PlaybackMode) (k : ℤ) (size c loops : ℕ)
    → size ≡ c + 1
    → advance mode k size c loops ≡ (0, loops + 1, is_finished mode k (loops + 1))
unfolding advance
advance-last mode k size c loops h = ground arith

-- One pass over the frames that are left, from the `c`-th on: it ends as the mode says.
rounds-pass :
    (mode : PlaybackMode) (k : ℤ) (frames left : List FrameData) (flags : List Bool) (c loops : ℕ)
    → 0 < length left
    → length frames ≡ c + length left
    → ((i : ℕ) → get_elem? frames (c + i) ≡ get_elem? left i)
    → (let rest = rounds mode k frames flags 0 (loops + 1) in
        let leave = is_finished mode k (loops + 1) in
        rounds mode k frames (replicate (length left) true ++ flags) c loops ≡ record {
          emitted = map some left ++ (if leave then [] else rest.emitted);
          running = if leave then false else rest.running;
        })
rounds-pass mode k frames [] flags c loops some_left size at = absurd (omega arith)
rounds-pass mode k frames (x ∷ []) flags c loops some_left size at =
    let here : get_elem? frames c ≡ some x = ap (get_elem? frames) (omega arith) ∙ at 0 in
    rounds-true mode k frames flags c loops
    ∙ rw (here, advance-last mode k (length frames) c loops size) refl
rounds-pass mode k frames (x ∷ y ∷ left) flags c loops some_left size at =
    let here : get_elem? frames c ≡ some x = ap (get_elem? frames) (omega arith) ∙ at 0 in
    let rest =
      rounds-pass mode k frames (y ∷ left) flags (c + 1) loops (omega arith) (omega arith)
        (λ i. ap (get_elem? frames) (omega arith) ∙ at (suc i)) in
    rounds-true mode k frames (replicate (length (y ∷ left)) true ++ flags) c loops
    ∙ rw (here, advance-more mode k (length frames) c loops (omega arith)) (rw rest refl)

-- `n` copies of a list, one after the other.
abbrev pub copies {ℓ} : {A : Type ℓ} → ℕ → List A → List A
copies zero xs = []
copies (suc n) xs = xs ++ copies n xs

is_finished-loop : (k loops : ℕ) → 0 < k → is_finished loop (pos k) loops ≡ leb k loops
unfolding is_finished
is_finished-loop k loops h = rw (lt→ltb 0 k h) refl

rounds-loop :
    (n k : ℕ) (frames : List FrameData) (flags : List Bool) (loops : ℕ)
    → 0 < length frames
    → k ≡ suc n + loops
    → rounds loop (pos k) frames (copies (suc n) (replicate (length frames) true) ++ flags) 0 loops
      ≡ record { emitted = copies (suc n) (map some frames); running = false }
rounds-loop zero k frames flags loops h all =
    let last : leb k (loops + 1) ≡ true = ground arith in
    let ends = is_finished-loop k (loops + 1) (omega arith) ∙ last in
    let pass = replicate (length frames) true in
    ap (λ s. rounds loop (pos k) frames s 0 loops) (append_assoc pass [] flags)
    ∙ rounds-pass loop (pos k) frames frames flags 0 loops h (omega arith)
        (λ i. ap (get_elem? frames) (omega arith))
    ∙ rw ends refl
rounds-loop (suc n) k frames flags loops h all =
    let more : leb k (loops + 1) ≡ false = ground arith in
    let goes_on = is_finished-loop k (loops + 1) (omega arith) ∙ more in
    let pass = replicate (length frames) true in
    ap (λ s. rounds loop (pos k) frames s 0 loops) (append_assoc pass (copies (suc n) pass) flags)
    ∙ rounds-pass loop (pos k) frames frames (copies (suc n) pass ++ flags) 0 loops h (omega arith)
        (λ i. ap (get_elem? frames) (omega arith))
    ∙ rw goes_on (rw (rounds-loop n k frames flags (loops + 1) h (omega arith)) refl)

-- A device with a callback and at least one frame, set to play them `n + 1` times, that nobody closes:
-- after that many passes, each over all the frames in their order, its thread ends by itself.
pub playback_loop-loop :
    (n : ℕ) (d : MockSensorDevice) (flags : List Bool)
    → d.frame_callback ≡ true
    → 0 < length d.frames
    → (playback_loop
        (copies (suc n) (replicate (length d.frames) true) ++ flags)
        (record d { playback_mode = loop; loop_count = pos (suc n) })).0
      ≡ record { emitted = copies (suc n) (map some d.frames); running = false }
unfolding playback_loop
playback_loop-loop n d flags called h =
    rw (called, lt→not_leb (length d.frames) 0 h)
      (rounds-loop n (suc n) d.frames flags 0 h (omega arith))

rounds-once :
    (k : ℤ) (frames : List FrameData) (flags : List Bool)
    → 0 < length frames
    → rounds once k frames (replicate (length frames) true ++ flags) 0 0
      ≡ record { emitted = map some frames; running = false }
unfolding is_finished
rounds-once k frames flags h =
    rounds-pass once k frames frames flags 0 0 h (omega arith)
      (λ i. ap (get_elem? frames) (omega arith))
    ∙ ap (λ e. record { emitted = e; running = false }) (append-nil (map some frames))

-- A device with a callback, set to play its frames once, that nobody closes: after one pass over all the
-- frames in their order its thread has ended by itself. Then a callback that is set, also after another
-- `close`, ends the program, when frames were loaded and the thread was started by a callback.
pub playback_loop-once :
    (d : MockSensorDevice) (flags : List Bool)
    → d.frame_callback ≡ true
    → d.data_loaded ≡ true
    → d.joinable ≡ true
    → 0 < length d.frames
    → d.playback_mode ≡ once
    → (let (run, d') = playback_loop (replicate (length d.frames) true ++ flags) d in
        (run ≡ record { emitted = map some d.frames; running = false })
        × (set_frame_callback true d' ≡ none)
        × (set_frame_callback true (close_device d') ≡ none))
unfolding playback_loop set_frame_callback close_device
playback_loop-once d flags called ready unjoined h mode =
    rw (called, mode, lt→not_leb (length d.frames) 0 h, rounds-once d.loop_count d.frames flags h)
      (refl, rw (ready, unjoined) refl, rw (ready, unjoined) refl)
