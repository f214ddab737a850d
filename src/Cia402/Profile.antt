-- ===== src/Cia402/Profile.antt =====
-- Motion profiles: the state `Cia402MotionProfile`, and `cia402_profile_begin`.
pub mod Ramp
pub mod Scurve
pub mod Position
pub mod Step
mod Tests
use ether_cat_master.Prelude.{
  ℕ, zero, suc, ◌==◌, ltb, Bool, true, false, ◌&&◌, if◌then◌else◌, List, replicate,
}
use ether_cat_master.Prelude.Int.{ℤ, pos, negsuc}
use ether_cat_master.Cia402.Double.{Double, ◌⊕◌, ◌⊖◌, ◌⊗◌, nought, half}
use ether_cat_master.Cia402.Command.{
  MotionType, motion_none, servo_stop, jog_velocity, profile_position, home, MotionCommand,
}

-- One entry of each `planner_segment_...` array.
pub record Segment (W : Type 0) : Type 0 where
  pub time : W
  pub start_s : W
  pub position : W
  pub velocity : W
  pub acceleration : W
  pub jerk : W

pub record MotionProfile (W : Type 0) : Type 0 where
  pub type : MotionType
  pub active : Bool
  pub done : Bool
  pub relative : Bool
  pub cycles : ℕ  -- int64_t, counted up from 0
  pub position : W
  pub velocity : W
  pub target_position : W
  pub target_velocity : W
  pub max_velocity : W
  pub acceleration : W
  pub deceleration : W
  pub acceleration_state : W
  pub planner_valid : Bool
  pub planner_start_position : W
  pub planner_distance : W
  pub planner_direction : W
  pub planner_elapsed_s : W
  pub planner_total_s : W
  pub planner_segments : List (Segment W)  -- the six arrays of CIA402_SCURVE_SEGMENTS
  pub profile_type : ℤ
  pub jerk_ratio : W
  pub output_position : ℤ
  pub output_velocity : ℤ

abbrev pub int32_max : ℤ
int32_max = pos 2147483647

abbrev pub int32_min : ℤ
int32_min = negsuc 2147483647

abbrev pub profile_lms : ℤ
profile_lms = pos 0

abbrev pub profile_trapezoidal : ℤ
profile_trapezoidal = pos 1

abbrev pub profile_scurve : ℤ
profile_scurve = pos 2

abbrev pub profile_jerk_ratio : ℤ
profile_jerk_ratio = pos 3

unfoldable pub normalize_profile_type : ℤ → ℤ
normalize_profile_type (pos zero) = profile_lms
normalize_profile_type (pos (suc zero)) = profile_trapezoidal
normalize_profile_type (pos (suc (suc zero))) = profile_scurve
normalize_profile_type (pos (suc (suc (suc zero)))) = profile_jerk_ratio
normalize_profile_type _ = profile_trapezoidal

module _ {W : Type 0} ⦃d : Double W⦄ where
  unfoldable pub abs_double : W → W
  abs_double value = if d.lt value nought then d.negate value else value

  unfoldable pub max_double : W → W → W
  max_double lhs rhs = if d.lt rhs lhs then lhs else rhs

  unfoldable pub min_double : W → W → W
  min_double lhs rhs = if d.lt lhs rhs then lhs else rhs

  unfoldable pub clamp_double : W → W → W → W
  clamp_double value min_value max_value =
      if d.lt value min_value then min_value else if d.lt max_value value then max_value else value

  unfoldable pub normalize_jerk_ratio : W → W
  unfolding clamp_double
  normalize_jerk_ratio jerk_ratio = clamp_double jerk_ratio nought (d.of_int (pos 1))

  unfoldable pub round_to_i32 : W → ℤ
  round_to_i32 value =
      if d.lt (d.of_int int32_max) value
      then int32_max
      else if d.lt value (d.of_int int32_min)
      then int32_min
      else d.truncate (if d.le nought value then value ⊕ half else value ⊖ half)

  -- CIA402_POSITION_EPSILON and CIA402_VELOCITY_EPSILON.
  abbrev pub epsilon : W
  epsilon = half

  unfoldable pub configured_speed : ℤ → W
  unfolding abs_double
  configured_speed value =
      let speed : W = abs_double (d.of_int value) in
      if d.lt nought speed then speed else d.of_int (pos 1000)

  unfoldable pub configured_accel : ℕ → W → W
  unfolding max_double
  configured_accel value reference_speed =
      if ltb 0 value
      then d.of_int (pos value)
      else max_double (d.of_int (pos 10000)) (reference_speed ⊗ d.of_int (pos 10))

  -- What `memset` to zero leaves.
  abbrev pub zero_segment : Segment W
  zero_segment = record {
    time = nought;
    start_s = nought;
    position = nought;
    velocity = nought;
    acceleration = nought;
    jerk = nought;
  }

  abbrev pub zero_segments : List (Segment W)
  zero_segments = replicate 7 zero_segment

  -- `profile` is not null.
  unfoldable pub profile_reset : MotionProfile W
  profile_reset = record {
    type = motion_none;
    active = false;
    done = true;
    relative = false;
    cycles = 0;
    position = nought;
    velocity = nought;
    target_position = nought;
    target_velocity = nought;
    max_velocity = nought;
    acceleration = nought;
    deceleration = nought;
    acceleration_state = nought;
    planner_valid = false;
    planner_start_position = nought;
    planner_distance = nought;
    planner_direction = nought;
    planner_elapsed_s = nought;
    planner_total_s = nought;
    planner_segments = zero_segments;
    profile_type = pos 0;
    jerk_ratio = nought;
    output_position = pos 0;
    output_velocity = pos 0;
  }

  -- Position reached and standstill.
  abbrev pub settled : MotionProfile W → Bool
  settled p =
      d.le (abs_double (p.target_position ⊖ p.position)) epsilon
      && d.le (abs_double p.velocity) epsilon

  abbrev pub snap : MotionProfile W → MotionProfile W
  snap p = record p { position = p.target_position; velocity = nought; done = true }

  -- The speed and acceleration limits of a command, from its reference speed.
  abbrev with_limits : MotionCommand W → W → MotionProfile W → MotionProfile W
  with_limits command reference_speed p = record p {
    max_velocity = reference_speed;
    acceleration = configured_accel command.acceleration reference_speed;
    deceleration = configured_accel command.deceleration reference_speed;
  }

  -- The fields that are set before the switch.
  begin_common : MotionCommand W → ℤ → ℤ → MotionProfile W
  unfolding profile_reset
  begin_common command actual_position actual_velocity = record (profile_reset) {
    type = command.type;
    active = true;
    done = false;
    relative = command.relative;
    cycles = 0;
    position = d.of_int actual_position;
    velocity = d.of_int actual_velocity;
    output_position = actual_position;
    output_velocity = actual_velocity;
    acceleration_state = nought;
    profile_type = normalize_profile_type command.profile_type;
    jerk_ratio = normalize_jerk_ratio command.jerk_ratio;
  }

  begin_switch : MotionType → MotionCommand W → ℤ → ℤ → MotionProfile W → MotionProfile W
  begin_switch profile_position command actual_position actual_velocity p =
      let target : W =
        if command.relative
        then d.of_int actual_position ⊕ d.of_int command.target_position
        else d.of_int command.target_position in
      let q : MotionProfile W =
        with_limits command (configured_speed command.profile_velocity)
          (record p { target_position = target }) in
      if settled q then snap q else q
  begin_switch jog_velocity command actual_position actual_velocity p =
      with_limits command (configured_speed command.target_velocity)
        (record p { target_velocity = d.of_int command.target_velocity })
  begin_switch servo_stop command actual_position actual_velocity p =
      with_limits command (configured_speed actual_velocity) (record p { target_velocity = nought })
  begin_switch home command actual_position actual_velocity p =
      with_limits command (configured_speed command.target_velocity)
        (record p { target_velocity = d.of_int command.target_velocity })
  begin_switch motion_none command actual_position actual_velocity p = record p {
    active = false;
    done = true;
  }

  -- `profile` and `command` are not null. What `profile` held before is overwritten.
  unfoldable pub profile_begin : MotionCommand W → ℤ → ℤ → MotionProfile W
  unfolding profile_reset begin_common begin_switch
  profile_begin command actual_position actual_velocity = elim command.type [
    | motion_none ↦ profile_reset
    | other ↦
        begin_switch other command actual_position actual_velocity
          (begin_common command actual_position actual_velocity)
  ]
