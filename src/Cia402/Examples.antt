-- ===== src/Cia402/Examples.antt =====
-- Commands and a profile for the tests, in thousandths.
use ether_cat_master.Prelude.{false, true}
use ether_cat_master.Prelude.Int.{ℤ, pos}
use ether_cat_master.Cia402.Fixed.{thousandths}
use ether_cat_master.Cia402.Command.{profile_position, MotionCommand, PdoOutput}
use ether_cat_master.Cia402.Profile.{MotionProfile, zero_segments}

-- 5000 units away at 1000 units a second, with the S-curve profile.
abbrev pub move_command : MotionCommand ℤ
move_command = record {
  type = profile_position;
  target_position = pos 5000;
  target_velocity = pos 0;
  profile_velocity = pos 1000;
  acceleration = 10000;
  deceleration = 10000;
  mode = pos 0;
  pulse_cycles = pos 20;
  relative = false;
  profile_type = pos 2;
  jerk_ratio = pos 750;
}

abbrev pub idle_output : PdoOutput
idle_output = record {
  controlword = 0x0006;
  target_position = pos 7;
  target_velocity = pos 3;
  mode = pos 0;
}

-- The profile of that command at position 0, before its first cycle.
abbrev pub moving : MotionProfile ℤ
moving = record {
  type = profile_position;
  active = true;
  done = false;
  relative = false;
  cycles = 0;
  position = pos 0;
  velocity = pos 0;
  target_position = pos 5000000;
  target_velocity = pos 0;
  max_velocity = pos 1000000;
  acceleration = pos 10000000;
  deceleration = pos 10000000;
  acceleration_state = pos 0;
  planner_valid = false;
  planner_start_position = pos 0;
  planner_distance = pos 0;
  planner_direction = pos 0;
  planner_elapsed_s = pos 0;
  planner_total_s = pos 0;
  planner_segments = zero_segments;
  profile_type = pos 2;
  jerk_ratio = pos 750;
  output_position = pos 0;
  output_velocity = pos 0;
}

-- The same profile when the motion is over.
abbrev pub arrived : MotionProfile ℤ
arrived = record moving { done = true; position = pos 5000000 }
