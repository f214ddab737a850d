-- ===== src/Cia402/Drive.antt =====
-- Drive states and power sequences: `cia402_state_from_status`, `cia402_sequence_controlword`.
pub mod Decode
pub mod Enable
mod Tests
use ether_cat_master.Prelude.{ℕ, Bool, true, false, ◌||◌, if◌then◌else◌, ◌==◌, bit_and}

pub data State : Type 0 where
  not_ready switch_on_disabled ready_to_switch_on switched_on operation_enabled : State
  quick_stop_active fault_reaction_active fault unknown : State

pub data Sequence : Type 0 where
  seq_none fault_reset shutdown switch_on enable disable : Sequence

-- `statusword` is a uint16_t.
unfoldable pub state_from_status : ℕ → State
state_from_status statusword =
    if bit_and statusword 0x004f == 0x0000
    then not_ready
    else if bit_and statusword 0x004f == 0x0040
    then switch_on_disabled
    else if bit_and statusword 0x006f == 0x0021
    then ready_to_switch_on
    else if bit_and statusword 0x006f == 0x0023
    then switched_on
    else if bit_and statusword 0x006f == 0x0027
    then operation_enabled
    else if bit_and statusword 0x006f == 0x0007
    then quick_stop_active
    else if bit_and statusword 0x004f == 0x000f
    then fault_reaction_active
    else if bit_and statusword 0x004f == 0x0008
    then fault
    else unknown

-- The controlword and `*target_reached`, for a `target_reached` that is not null.
unfoldable pub sequence_controlword : Sequence → State → ℕ → ℕ × Bool
sequence_controlword seq_none state manual_controlword = (manual_controlword, true)
sequence_controlword fault_reset fault _ = (0x0080, false)
sequence_controlword fault_reset fault_reaction_active _ = (0x0080, false)
sequence_controlword fault_reset _ _ = (0x0000, true)
sequence_controlword shutdown ready_to_switch_on _ = (0x0006, true)
sequence_controlword shutdown _ _ = (0x0006, false)
sequence_controlword switch_on switched_on _ = (0x0007, true)
sequence_controlword switch_on operation_enabled _ = (0x0007, true)
sequence_controlword switch_on ready_to_switch_on _ = (0x0007, false)
sequence_controlword switch_on fault _ = (0x0080, false)
sequence_controlword switch_on fault_reaction_active _ = (0x0080, false)
sequence_controlword switch_on _ _ = (0x0006, false)
sequence_controlword enable operation_enabled _ = (0x000f, true)
sequence_controlword enable switched_on _ = (0x000f, false)
sequence_controlword enable ready_to_switch_on _ = (0x0007, false)
sequence_controlword enable fault _ = (0x0080, false)
sequence_controlword enable fault_reaction_active _ = (0x0080, false)
sequence_controlword enable _ _ = (0x0006, false)
sequence_controlword disable switch_on_disabled _ = (0x0000, true)
sequence_controlword disable _ _ = (0x0000, false)
