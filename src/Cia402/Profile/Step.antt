-- ===== src/Cia402/Profile/Step.antt =====
-- One cycle of a motion: `cia402_profile_step`.
pub mod Run
use ether_cat_master.Prelude.{ℕ, suc, ◌+◌, Bool, true, false, ◌&&◌, ◌||◌, not, if◌then◌else◌}
use ether_cat_master.Prelude.Int.{ℤ, pos, ltb_ℤ}
use ether_cat_master.Cia402.Double.{Double, ◌⊕◌, ◌⊘◌, nought}
use ether_cat_master.Cia402.Command.{
  MotionType, motion_none, servo_stop, jog_velocity, profile_position, home, MotionCommand,
  PdoOutput, mode_or, mode_csp, mode_csv, mode_homing,
}
use ether_cat_master.Cia402.Profile.{
  MotionProfile, abs_double, epsilon, round_to_i32, profile_begin,
}
use ether_cat_master.Cia402.Profile.Ramp.{ramp_velocity_by_profile}
use ether_cat_master.Cia402.Profile.Position.{step_position_profile}

pub MotionType-discrete : Discrete MotionType
MotionType-discrete = hlevel

abbrev pub same_type : MotionType → MotionType → Bool
same_type motion_none motion_none = true
same_type servo_stop servo_stop = true
same_type jog_velocity jog_velocity = true
same_type profile_position profile_position = true
same_type home home = true
same_type _ _ = false

module _ {W : Type 0} ⦃d : Double W⦄ where
  -- Seconds in a cycle; 0.001 where the period is not positive.
  unfoldable pub cycle_time : ℤ → W
  cycle_time period_us =
      let dt_s : W =
        (if ltb_ℤ (pos 0) period_us then d.of_int period_us else d.of_int (pos 1000))
        ⊘ d.of_int (pos 1000000) in
      if d.le dt_s nought then d.ratio 1 1000 else dt_s

  -- A cycle of a velocity motion: ramp to `target`, and report the actual position.
  ramp_to : W → ℤ → W → MotionProfile W → MotionProfile W
  ramp_to target actual_position dt_s p =
      let (velocity, q) = ramp_velocity_by_profile p target dt_s in
      record q { velocity = velocity; position = d.of_int actual_position }

  -- The switch of a cycle; the result is the profile and the output.
  step_switch :
      MotionType
      → MotionCommand W
      → ℤ
      → W
      → MotionProfile W
      → PdoOutput
      → MotionProfile W × PdoOutput
  step_switch profile_position command actual_position dt_s p output =
      let q : MotionProfile W = step_position_profile p dt_s in
      (
        q,
        record output {
          controlword = 0x000f;
          target_position = round_to_i32 q.position;
          target_velocity = round_to_i32 q.velocity;
          mode = mode_or command.mode mode_csp;
        },
      )
  step_switch jog_velocity command actual_position dt_s p output =
      let q : MotionProfile W = ramp_to p.target_velocity actual_position dt_s p in
      (
        record q { done = d.eq q.target_velocity nought && d.le (abs_double q.velocity) epsilon },
        record output {
          controlword = 0x000f;
          target_position = actual_position;
          target_velocity = round_to_i32 q.velocity;
          mode = mode_or command.mode mode_csv;
        },
      )
  step_switch servo_stop command actual_position dt_s p output =
      let q : MotionProfile W = ramp_to nought actual_position dt_s p in
      let stopped : Bool = d.le (abs_double q.velocity) epsilon in
      let r : MotionProfile W = record q {
        done = stopped;
        velocity = if stopped then nought else q.velocity;
      } in
      (
        r,
        record output {
          controlword = 0x010f;
          target_position = actual_position;
          target_velocity = round_to_i32 r.velocity;
          mode = mode_or command.mode mode_csv;
        },
      )
  step_switch home command actual_position dt_s p output =
      let q : MotionProfile W = ramp_to p.target_velocity actual_position dt_s p in
      (
        record q { done = false },
        record output {
          controlword = 0x001f;
          target_position = actual_position;
          target_velocity = round_to_i32 q.velocity;
          mode = mode_homing;
        },
      )
  step_switch motion_none command actual_position dt_s p output = (record p { done = true }, output)

  -- The profile that the cycle works on: a new one for a new type of motion.
  unfoldable pub current_profile : MotionProfile W → MotionCommand W → ℤ → ℤ → MotionProfile W
  current_profile p command actual_position actual_velocity =
      if not p.active || not (same_type p.type command.type)
      then profile_begin command actual_position actual_velocity
      else p

  -- Record what was put out, and count the cycle.
  abbrev finish_cycle : MotionProfile W × PdoOutput → MotionProfile W × PdoOutput × Bool
  finish_cycle (p, output) = (
    record p {
      output_position = output.target_position;
      output_velocity = output.target_velocity;
      cycles = p.cycles + 1;
    },
    output,
    p.done,
  )

  -- The pointers are not null. The result holds the profile, the output and the value returned.
  unfoldable pub profile_step :
      MotionProfile W → MotionCommand W → ℤ → ℤ → ℤ → PdoOutput → MotionProfile W × PdoOutput × Bool
  unfolding step_switch ramp_to
  profile_step p command actual_position actual_velocity period_us output = elim command.type [
    | motion_none ↦ (p, output, true)
    | other ↦ finish_cycle (
        step_switch other command actual_position (cycle_time period_us)
          (current_profile p command actual_position actual_velocity) output)
  ]
