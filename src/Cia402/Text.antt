-- ===== src/Cia402/Text.antt =====
-- The names that the program prints: `cia402_status_text` and its siblings.
pub mod Distinct
mod Tests
use Prim.Native.String.{String}
use ether_cat_master.Prelude.{zero, suc}
use ether_cat_master.Prelude.Int.{ℤ, pos}
use ether_cat_master.Cia402.Drive.{
  State, not_ready, switch_on_disabled, ready_to_switch_on, switched_on, operation_enabled,
  quick_stop_active, fault_reaction_active, fault, unknown, Sequence, seq_none, fault_reset,
  shutdown, switch_on, enable, disable,
}
use ether_cat_master.Cia402.Command.{
  MotionType, motion_none, servo_stop, jog_velocity, profile_position, home,
}
use ether_cat_master.Cia402.Profile.{normalize_profile_type}

unfoldable pub status_text : State → String
status_text not_ready = "NotReady"
status_text switch_on_disabled = "SwitchOnDisabled"
status_text ready_to_switch_on = "ReadyToSwitchOn"
status_text switched_on = "SwitchedOn"
status_text operation_enabled = "OperationEnabled"
status_text quick_stop_active = "QuickStopActive"
status_text fault_reaction_active = "FaultReactionActive"
status_text fault = "Fault"
status_text unknown = "Unknown"

-- An int8_t; the modes are 1, 3, 6, 8, 9 and 10.
unfoldable pub mode_text : ℤ → String
mode_text (pos (suc zero)) = "PP"
mode_text (pos (suc (suc (suc zero)))) = "PV"
mode_text (pos (suc (suc (suc (suc (suc (suc zero))))))) = "HM"
mode_text (pos (suc (suc (suc (suc (suc (suc (suc (suc zero))))))))) = "CSP"
mode_text (pos (suc (suc (suc (suc (suc (suc (suc (suc (suc zero)))))))))) = "CSV"
mode_text (pos (suc (suc (suc (suc (suc (suc (suc (suc (suc (suc zero))))))))))) = "CST"
mode_text _ = "-"

unfoldable pub sequence_text : Sequence → String
sequence_text fault_reset = "FaultReset"
sequence_text shutdown = "Shutdown"
sequence_text switch_on = "SwitchOn"
sequence_text enable = "EnableOperation"
sequence_text disable = "DisableVoltage"
sequence_text seq_none = "None"

unfoldable pub motion_text : MotionType → String
motion_text servo_stop = "ServoStop"
motion_text jog_velocity = "JogVelocity"
motion_text profile_position = "ProfilePosition"
motion_text home = "Home"
motion_text motion_none = "None"

profile_name : ℤ → String
profile_name (pos zero) = "LMS"
profile_name (pos (suc (suc zero))) = "SCurve"
profile_name (pos (suc (suc (suc zero)))) = "JerkRatio"
profile_name _ = "Trapezoidal"

-- The switch is over the normalised type.
unfoldable pub profile_type_text : ℤ → String
unfolding profile_name normalize_profile_type
profile_type_text profile_type = profile_name (normalize_profile_type profile_type)
