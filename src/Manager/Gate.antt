-- ===== src/Manager/Gate.antt =====
-- The adaptive gating of `processRawDepthFrame`: spatial smoothing is switched on after so many unstable
-- frames in a row, and off after so many stable ones.
use caldera_sandbox.Base.{ℕ, Bool, true, false, not, ◌&&◌, ◌||◌, List, [], ◌∷◌, leb, if◌then◌else◌}
use caldera_sandbox.Base.Int.{ℤ, to_u32}
use caldera_sandbox.Base.Words.{inc32}
use caldera_sandbox.Base.Float.{Float}

-- The members of the manager, and the state of the stages.
pub record Gate : Type 0 where
  pub active : Bool
  pub unstable_streak : ℕ
  pub stable_streak : ℕ

abbrev pub new_gate : Gate
new_gate = record { active = false; unstable_streak = 0; stable_streak = 0 }

pub record AdaptiveState : Type 0 where
  pub spatial_active : Bool
  pub strong_active : Bool

-- One frame, with the two lengths that switch the gate.
unfoldable pub update_gate : ℤ → ℤ → Bool → Gate → Gate
update_gate on_streak off_streak unstable g =
    let unstable_streak = if unstable then inc32 g.unstable_streak else 0 in
    let stable_streak = if unstable then 0 else inc32 g.stable_streak in
    let on = if not g.active && leb (to_u32 on_streak) unstable_streak then true else g.active in
    record {
      active = if on && leb (to_u32 off_streak) stable_streak then false else on;
      unstable_streak = unstable_streak;
      stable_streak = stable_streak;
    }

-- The frames of a list, from the last on.
unfoldable pub run_gate : ℤ → ℤ → List Bool → Gate
unfolding update_gate
run_gate on off [] = new_gate
run_gate on off (unstable ∷ earlier) = update_gate on off unstable (run_gate on off earlier)

pub record AdaptiveConfig (F : Type 0) : Type 0 where
  pub mode : ℤ
  pub stability_min : F
  pub variance_max : F
  pub on_streak : ℤ
  pub off_streak : ℤ
  pub strong_var_mult : F
  pub strong_stab_frac : F
  pub temporal_scale : F
  pub strong_double_pass : Bool

module _ {F : Type 0} ⦃f : Float F⦄ where
  open f use {lt, mul}

  -- The last frame's stability ratio and average variance.
  unfoldable pub is_unstable : AdaptiveConfig F → F → F → Bool
  is_unstable c stab var = lt stab c.stability_min || lt c.variance_max var

  -- `active` tells whether metrics are enabled, adaptive mode is 2 and this is not the first frame.
  unfoldable pub adapt : AdaptiveConfig F → Bool → F → F → Gate → AdaptiveState × Gate
  unfolding update_gate is_unstable
  adapt c active stab var g =
      if active
      then (let g' = update_gate c.on_streak c.off_streak (is_unstable c stab var) g in
          (
            record {
              spatial_active = g'.active;
              strong_active =
                  g'.active
                  && (lt (mul c.strong_var_mult c.variance_max) var || lt stab c.strong_stab_frac);
            },
            g',
          ))
      else (record { spatial_active = false; strong_active = false }, g)
