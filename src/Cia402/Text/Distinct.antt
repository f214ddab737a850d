-- ===== src/Cia402/Text/Distinct.antt =====
-- The names of states, sequences and motions, read back.
use Prim.Native.String.{String}
use text.Mathlib.Text.{◌==◌}
use ether_cat_master.Prelude.{◌≡◌, refl, sym, ap, ◌∙◌, if◌then◌else◌}
use ether_cat_master.Cia402.Drive.{
  State, not_ready, switch_on_disabled, ready_to_switch_on, switched_on, operation_enabled,
  quick_stop_active, fault_reaction_active, fault, unknown, Sequence, seq_none, fault_reset,
  shutdown, switch_on, enable, disable,
}
use ether_cat_master.Cia402.Command.{
  MotionType, motion_none, servo_stop, jog_velocity, profile_position, home,
}
use ether_cat_master.Cia402.Text.{status_text, sequence_text, motion_text}

-- Readers for the three kinds of name.
read_status : String → State
read_status s =
    if s == "NotReady"
    then not_ready
    else if s == "SwitchOnDisabled"
    then switch_on_disabled
    else if s == "ReadyToSwitchOn"
    then ready_to_switch_on
    else if s == "SwitchedOn"
    then switched_on
    else if s == "OperationEnabled"
    then operation_enabled
    else if s == "QuickStopActive"
    then quick_stop_active
    else if s == "FaultReactionActive"
    then fault_reaction_active
    else if s == "Fault"
    then fault
    else unknown

read_sequence : String → Sequence
read_sequence s =
    if s == "FaultReset"
    then fault_reset
    else if s == "Shutdown"
    then shutdown
    else if s == "SwitchOn"
    then switch_on
    else if s == "EnableOperation"
    then enable
    else if s == "DisableVoltage"
    then disable
    else seq_none

read_motion : String → MotionType
read_motion s =
    if s == "ServoStop"
    then servo_stop
    else if s == "JogVelocity"
    then jog_velocity
    else if s == "ProfilePosition"
    then profile_position
    else if s == "Home"
    then home
    else motion_none

read-status_text : (st : State) → read_status (status_text st) ≡ st
unfolding read_status status_text
read-status_text not_ready = refl
read-status_text switch_on_disabled = refl
read-status_text ready_to_switch_on = refl
read-status_text switched_on = refl
read-status_text operation_enabled = refl
read-status_text quick_stop_active = refl
read-status_text fault_reaction_active = refl
read-status_text fault = refl
read-status_text unknown = refl

read-sequence_text : (q : Sequence) → read_sequence (sequence_text q) ≡ q
unfolding read_sequence sequence_text
read-sequence_text seq_none = refl
read-sequence_text _ = refl

read-motion_text : (m : MotionType) → read_motion (motion_text m) ≡ m
unfolding read_motion motion_text
read-motion_text motion_none = refl
read-motion_text _ = refl

-- Two states with the same printed name are one state, and so are two sequences and two motions.
pub texts_injective :
    ((a b : State) → status_text a ≡ status_text b → a ≡ b)
    × ((p q : Sequence) → sequence_text p ≡ sequence_text q → p ≡ q)
    × ((m n : MotionType) → motion_text m ≡ motion_text n → m ≡ n)
texts_injective = (
  λ a b h. sym (read-status_text a) ∙ ap read_status h ∙ read-status_text b,
  λ p q h. sym (read-sequence_text p) ∙ ap read_sequence h ∙ read-sequence_text q,
  λ m n h. sym (read-motion_text m) ∙ ap read_motion h ∙ read-motion_text n,
)
