-- ===== src/Cia402/Command.antt =====
-- Motion commands without a profile: `cia402_motion_init`, `cia402_motion_apply`.
pub mod Apply
use ether_cat_master.Prelude.{
  ℕ, zero, suc, Bool, true, false, not, ◌&&◌, if◌then◌else◌, bit_or, Option, none, some,
}
use ether_cat_master.Prelude.Int.{ℤ, pos, negsuc, ltb_ℤ, eqb_ℤ, leb_ℤ}
use ether_cat_master.Cia402.Double.{Double}

pub data MotionType : Type 0 where
  motion_none servo_stop jog_velocity profile_position home : MotionType

-- `Cia402Mode`, as the int8_t that the PDO carries.
abbrev pub mode_profile_position : ℤ
mode_profile_position = pos 1

abbrev pub mode_homing : ℤ
mode_homing = pos 6

abbrev pub mode_csp : ℤ
mode_csp = pos 8

abbrev pub mode_csv : ℤ
mode_csv = pos 9

-- `W` stands for `double`; the flag `relative` is a C int.
pub record MotionCommand (W : Type 0) : Type 0 where
  pub type : MotionType
  pub target_position : ℤ  -- int32_t
  pub target_velocity : ℤ  -- int32_t
  pub profile_velocity : ℤ  -- int32_t
  pub acceleration : ℕ  -- uint32_t
  pub deceleration : ℕ  -- uint32_t
  pub mode : ℤ  -- int8_t
  pub pulse_cycles : ℤ
  pub relative : Bool
  pub profile_type : ℤ
  pub jerk_ratio : W

pub record PdoOutput : Type 0 where
  pub controlword : ℕ
  pub target_position : ℤ
  pub target_velocity : ℤ
  pub mode : ℤ

-- `x != 0 ? x : otherwise`
abbrev pub mode_or : ℤ → ℤ → ℤ
mode_or x otherwise = if eqb_ℤ x (pos 0) then otherwise else x

module _ {W : Type 0} ⦃d : Double W⦄ where
  unfoldable pub motion_init : MotionCommand W
  motion_init = record {
    type = motion_none;
    target_position = pos 0;
    target_velocity = pos 0;
    profile_velocity = pos 0;
    acceleration = 0;
    deceleration = 0;
    mode = pos 0;
    pulse_cycles = pos 20;
    relative = false;
    profile_type = pos 1;
    jerk_ratio = d.ratio 3 4;
  }

module _ {W : Type 0} where
  -- The new-setpoint pulse of profile position mode.
  abbrev new_setpoint : MotionCommand W → ℤ → Bool
  new_setpoint command cycle_after_sequence =
      leb_ℤ (pos 0) cycle_after_sequence && ltb_ℤ cycle_after_sequence command.pulse_cycles

  -- The switch, after the early returns.
  apply_done : MotionType → MotionCommand W → ℤ → PdoOutput → PdoOutput
  apply_done jog_velocity command cycle_after_sequence output = record output {
    controlword = 0x000f;
    target_velocity = command.target_velocity;
    mode = mode_or command.mode mode_csv;
  }
  apply_done profile_position command cycle_after_sequence output = record output {
    controlword =
        if eqb_ℤ command.mode mode_csp
        then 0x000f
        else bit_or 0x000f (if new_setpoint command cycle_after_sequence then 0x0010 else 0);
    target_position = command.target_position;
    target_velocity = command.profile_velocity;
    mode = mode_or command.mode mode_profile_position;
  }
  apply_done home command cycle_after_sequence output = record output {
    controlword = 0x001f;
    target_velocity = command.target_velocity;
    mode = mode_homing;
  }
  apply_done _ command cycle_after_sequence output = output

  -- `command` and `output` are not null.
  unfoldable pub motion_apply : MotionCommand W → Bool → ℤ → PdoOutput → PdoOutput
  unfolding apply_done
  motion_apply command sequence_done cycle_after_sequence output = elim command.type [
    | motion_none ↦ output
    | servo_stop ↦ record output {
      controlword = 0x010f;
      target_velocity = pos 0;
      mode = mode_or output.mode mode_csv;
    }
    | other ↦
        if not sequence_done then output else apply_done other command cycle_after_sequence output
  ]
