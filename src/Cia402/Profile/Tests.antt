-- ===== src/Cia402/Profile/Tests.antt =====
-- Motions on examples, in thousandths.
use ether_cat_master.Prelude.{◌≡◌, refl}
use ether_cat_master.Prelude.Int.{ℤ, pos, negsuc}
use ether_cat_master.Cia402.Examples.{move_command, moving}
use ether_cat_master.Cia402.Fixed.{thousandths}
use ether_cat_master.Cia402.Command.{jog_velocity, MotionCommand}
use ether_cat_master.Cia402.Profile.{
  normalize_profile_type, normalize_jerk_ratio, configured_speed, configured_accel, profile_begin,
}

abbrev jog_command : MotionCommand ℤ
jog_command = record move_command { type = jog_velocity; target_velocity = negsuc 299 }

begin_test : profile_begin move_command (pos 0) (pos 0) ≡ moving
unfolding profile_begin configured_speed configured_accel normalize_profile_type
    normalize_jerk_ratio
begin_test = refl
