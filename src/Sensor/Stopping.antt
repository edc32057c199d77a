-- ===== src/Sensor/Stopping.antt =====
-- The synthetic sensor pauses itself after the frames asked for, and stays paused.
use caldera_sandbox.Base.{
  ℕ, zero, suc, ◌+◌, ◌<◌, ◌≡◌, refl, ap, ◌∙◌, true, false, List, [], ◌∷◌, ◌++◌, arith, length, ltb,
  leb,
}
use caldera_sandbox.Base.Words.{u64_mod}
use caldera_sandbox.Base.Float.{Float}
use caldera_sandbox.Sensor.Synthetic.{
  Config, SyntheticSensor, stop_if_done, make_frame, set_stop_after, count_frame, fill_pattern,
  turn, turns,
}

-- A running sensor that makes frames until it has made `n`, of which `left` are to come.
pub record IsCounting (n left : ℕ) (s : SyntheticSensor) : Type 0 where
  pub active : s.running ≡ true
  pub awake : s.paused ≡ false
  pub asked : s.stop_after ≡ n
  pub to_come : s.frame_counter + left ≡ n
  pub small : n < u64_mod

-- A running sensor that is paused after `n` frames, and not asked for more.
pub record IsStopped (n : ℕ) (s : SyntheticSensor) : Type 0 where
  pub active : s.running ≡ true
  pub asleep : s.paused ≡ true
  pub settled : s.stop_after ≡ 0
  pub made : s.frame_counter ≡ n

stop_if_done-IsCounting :
    (n left : ℕ) (s : SyntheticSensor) → IsCounting n (suc left) s → stop_if_done s ≡ s
unfolding stop_if_done
stop_if_done-IsCounting n left s h =
    let more : leb s.stop_after s.frame_counter ≡ false = ground (arith, h.asked, h.to_come) in
    let some_left : ltb 0 s.stop_after ≡ true = ground (arith, h.asked, h.to_come) in
    rw (more, some_left) refl

stop_if_done-IsStopped :
    (n : ℕ) (s : SyntheticSensor) → IsCounting n 0 s → 0 < n → IsStopped n (stop_if_done s)
unfolding stop_if_done
stop_if_done-IsStopped n s h positive =
    let last : leb s.stop_after s.frame_counter ≡ true = ground (arith, h.asked, h.to_come) in
    let some_left : ltb 0 s.stop_after ≡ true = ground (arith, h.asked) in
    rw (some_left, last)
      (record { active = h.active; asleep = refl; settled = refl; made = omega (arith, h.to_come) })

count_frame-IsCounting :
    (n left : ℕ) (buf : List ℕ) (s : SyntheticSensor)
    → IsCounting n (suc left) s
    → IsCounting n left (count_frame buf s)
unfolding count_frame
count_frame-IsCounting n left buf s h = record {
  active = h.active;
  awake = h.awake;
  asked = h.asked;
  to_come = omega (arith, h.to_come, h.small);
  small = h.small;
}

module _ {F : Type 0} ⦃f : Float F⦄ (sqrt round : F → F) (cfg : Config) where
  turn-IsCounting :
      (n left time : ℕ) (s : SyntheticSensor)
      → IsCounting n left s
      → (turn sqrt round cfg time s).1 ≡ stop_if_done (count_frame (fill_pattern sqrt round cfg) s)
  unfolding turn make_frame
  turn-IsCounting n left time s h = rw (h.active, h.awake) refl

  turn-IsStopped :
      (n time : ℕ) (s : SyntheticSensor) → IsStopped n s → (turn sqrt round cfg time s).1 ≡ s
  unfolding turn
  turn-IsStopped n time s h = rw (h.active, h.asleep) refl

  turns-IsStopped :
      (n : ℕ) (times : List ℕ) (s : SyntheticSensor)
      → IsStopped n s
      → turns sqrt round cfg times s ≡ s
  unfolding turns
  turns-IsStopped n [] s h = refl
  turns-IsStopped n (time ∷ times) s h =
      ap (turns sqrt round cfg times) (turn-IsStopped n time s h) ∙ turns-IsStopped n times s h

  turns-IsCounting :
      (n left : ℕ) (times : List ℕ) (s : SyntheticSensor)
      → IsCounting n (suc left) s
      → length times ≡ suc left
      → IsStopped n (turns sqrt round cfg times s)
  unfolding turns
  turns-IsCounting n left [] s h size = absurd (omega arith)
  turns-IsCounting n zero (time ∷ times) s h size =
      let buf = fill_pattern sqrt round cfg in
      let next = count_frame-IsCounting n zero buf s h in
      let stopped = stop_if_done-IsStopped n _ next (omega (arith, h.to_come)) in
      rw (turn-IsCounting n 1 time s h, turns-IsStopped n times _ stopped) stopped
  turns-IsCounting n (suc left) (time ∷ times) s h size =
      let buf = fill_pattern sqrt round cfg in
      let next = count_frame-IsCounting n (suc left) buf s h in
      rw (turn-IsCounting n (suc (suc left)) time s h, stop_if_done-IsCounting n left _ next)
        (turns-IsCounting n left times _ next (omega arith))

  turns-append :
      (times more : List ℕ) (s : SyntheticSensor)
      → turns sqrt round cfg (times ++ more) s
        ≡ turns sqrt round cfg more (turns sqrt round cfg times s)
  unfolding turns
  turns-append [] more s = refl
  turns-append (time ∷ times) more s = turns-append times more (turn sqrt round cfg time s).1

  -- A running sensor that is not paused and is asked, by a number below 2^64, for more frames than it made:
  -- after one turn of its thread for each frame that is missing it has made that many and is paused, and
  -- it stays so, whatever turns follow.
  pub set_stop_after-IsStopped :
      (n left : ℕ) (times more : List ℕ) (s : SyntheticSensor)
      → s.running ≡ true
      → s.paused ≡ false
      → s.frame_counter + suc left ≡ n
      → n < u64_mod
      → length times ≡ suc left
      → IsStopped n (turns sqrt round cfg (times ++ more) (set_stop_after n s))
  unfolding set_stop_after
  set_stop_after-IsStopped n left times more s on awake to_come small size =
      let stopped =
        turns-IsCounting n left times (set_stop_after n s)
          (record { active = on; awake = awake; asked = refl; to_come = to_come; small = small })
          size in
      rw (turns-append times more (set_stop_after n s), turns-IsStopped n more _ stopped) stopped
