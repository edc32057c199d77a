-- ===== src/Manager/Streaks.antt =====
-- The streak counters against the frames themselves: the gate follows the last frames.
use caldera_sandbox.Base.{
  ℕ, zero, suc, ◌+◌, ◌≤◌, ◌<◌, ◌≡◌, refl, ap, ◌∙◌, Bool, true, false, not, ◌&&◌, List, [], ◌∷◌,
  arith, leb, length, ◌%◌, if◌then◌else◌,
}
use caldera_sandbox.Base.Int.{ℤ, to_u32}
use caldera_sandbox.Base.Words.{u32_mod}
use caldera_sandbox.Manager.Gate.{Gate, update_gate, run_gate}

abbrev same_bool : Bool → Bool → Bool
same_bool true b = b
same_bool false b = not b

-- The last `n` frames exist and are all as `b` says.
abbrev pub last_frames : ℕ → Bool → List Bool → Bool
last_frames zero b history = true
last_frames (suc n) b [] = false
last_frames (suc n) b (x ∷ history) = same_bool b x && last_frames n b history

-- The gate as a function of the frames, the last one first: on after `on` unstable frames, off after `off`
-- stable ones, and otherwise as it was.
abbrev pub gate_of : ℕ → ℕ → List Bool → Bool
gate_of on off [] = false
gate_of on off (x ∷ history) =
    if last_frames on true (x ∷ history)
    then true
    else (if last_frames off false (x ∷ history) then false else gate_of on off history)

-- How many of the last frames are as `b` says.
abbrev leading : Bool → List Bool → ℕ
leading b [] = 0
leading b (x ∷ history) = if same_bool b x then suc (leading b history) else 0

last_frames-leading :
    (n : ℕ) (b : Bool) (history : List Bool) → last_frames n b history ≡ leb n (leading b history)
last_frames-leading zero b history = ground arith
last_frames-leading (suc n) b [] = ground arith
last_frames-leading (suc n) true (true ∷ history) =
    last_frames-leading n true history ∙ ground arith
last_frames-leading (suc n) true (false ∷ history) = ground arith
last_frames-leading (suc n) false (true ∷ history) = ground arith
last_frames-leading (suc n) false (false ∷ history) =
    last_frames-leading n false history ∙ ground arith

leading-le : (b : Bool) (history : List Bool) → leading b history ≤ length history
leading-le b [] = omega arith
leading-le true (true ∷ history) = omega (arith, leading-le true history)
leading-le true (false ∷ history) = omega arith
leading-le false (true ∷ history) = omega arith
leading-le false (false ∷ history) = omega (arith, leading-le false history)

-- The gate with its counters, from the frames.
abbrev expected : ℕ → ℕ → List Bool → Gate
expected on off history = record {
  active = gate_of on off history;
  unstable_streak = leading true history;
  stable_streak = leading false history;
}

-- The two tests of the code, when one of them fails.
switch_on :
    (a k : Bool)
    → (let on = if not a && k then true else a in if on && false then false else on)
      ≡ (if k then true else (if false then false else a))
switch_on true true = refl
switch_on true false = refl
switch_on false true = refl
switch_on false false = refl

switch_off :
    (a k : Bool)
    → (let on = if not a && false then true else a in if on && k then false else on)
      ≡ (if false then true else (if k then false else a))
switch_off true true = refl
switch_off true false = refl
switch_off false true = refl
switch_off false false = refl

update_gate-expected :
    (on off : ℤ) (x : Bool) (history : List Bool)
    → 0 < to_u32 on
    → 0 < to_u32 off
    → suc (length history) < u32_mod
    → update_gate on off x (expected (to_u32 on) (to_u32 off) history)
      ≡ expected (to_u32 on) (to_u32 off) (x ∷ history)
unfolding update_gate
update_gate-expected on off true history on_some off_some small =
    let n = leading true history in
    let counted : (n + 1) % u32_mod ≡ suc n = omega (arith, leading-le true history) in
    let none_stable : leb (to_u32 off) 0 ≡ false = ground arith in
    rw
      (
        last_frames-leading (to_u32 on) true (true ∷ history),
        last_frames-leading (to_u32 off) false (true ∷ history),
        counted,
        none_stable,
      )
      (ap (λ a. record { active = a; unstable_streak = suc n; stable_streak = 0 })
        (switch_on (gate_of (to_u32 on) (to_u32 off) history) (leb (to_u32 on) (suc n))))
update_gate-expected on off false history on_some off_some small =
    let n = leading false history in
    let counted : (n + 1) % u32_mod ≡ suc n = omega (arith, leading-le false history) in
    let none_unstable : leb (to_u32 on) 0 ≡ false = ground arith in
    rw
      (
        last_frames-leading (to_u32 on) true (false ∷ history),
        last_frames-leading (to_u32 off) false (false ∷ history),
        counted,
        none_unstable,
      )
      (ap (λ a. record { active = a; unstable_streak = 0; stable_streak = suc n })
        (switch_off (gate_of (to_u32 on) (to_u32 off) history) (leb (to_u32 off) (suc n))))

run_gate-expected :
    (on off : ℤ) (history : List Bool)
    → 0 < to_u32 on
    → 0 < to_u32 off
    → length history < u32_mod
    → run_gate on off history ≡ expected (to_u32 on) (to_u32 off) history
unfolding run_gate
run_gate-expected on off [] on_some off_some small = refl
run_gate-expected on off (x ∷ history) on_some off_some small =
    ap (update_gate on off x) (run_gate-expected on off history on_some off_some (omega arith))
    ∙ update_gate-expected on off x history on_some off_some small

-- For two lengths that are positive as unsigned numbers, and fewer than 2^32 frames: the gate is on after
-- frames just when the frames themselves say so, that is, when of the two events "as many unstable frames
-- in a row as switch it on" and "as many stable ones as switch it off" the later one is the first, or the
-- first alone happened.
pub run_gate-gate_of :
    (on off : ℤ) (history : List Bool)
    → 0 < to_u32 on
    → 0 < to_u32 off
    → length history < u32_mod
    → (run_gate on off history).active ≡ gate_of (to_u32 on) (to_u32 off) history
run_gate-gate_of on off history on_some off_some small =
    ap (λ g. g.active) (run_gate-expected on off history on_some off_some small)
