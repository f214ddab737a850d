-- ===== src/Cia402/Command/Apply.antt =====
-- What `cia402_motion_apply` may put out.
use ether_cat_master.Prelude.{◌≡◌, ◌≢◌, ◌↔◌, ◌⊎◌, true, false, arith}
use ether_cat_master.Prelude.Int.{ℤ, pos, ◌≤ℤ◌}
use ether_cat_master.Cia402.Command.{
  motion_none, servo_stop, profile_position, MotionCommand, PdoOutput, mode_csp, motion_apply,
}

-- Before the power sequence is done a command changes nothing, except that a servo stop asks for
-- standstill; with the sequence done the drive is always given a mode of operation.
pub motion_apply_gated :
    {W : Type 0} (c : MotionCommand W) (n : ℤ) (o : PdoOutput)
    → ((motion_apply c false n o ≡ o)
        ⊎ ((c.type ≡ servo_stop)
            × ((motion_apply c false n o).controlword ≡ 0x010f)
            × ((motion_apply c false n o).target_velocity ≡ pos 0)
            × ((motion_apply c false n o).target_position ≡ o.target_position)))
      × (c.type ≢ motion_none → (motion_apply c true n o).mode ≢ pos 0)
unfolding motion_apply
motion_apply_gated c n o = ground arith

-- In profile position mode the new-setpoint bit (0x0010) is set in exactly the cycles from 0 to
-- `pulse_cycles - 1` after the sequence, on top of the word 0x000f; in the mode CSP it is never set.
pub motion_apply_pulse :
    {W : Type 0} (c : MotionCommand W) (n : ℤ) (o : PdoOutput)
    → c.type ≡ profile_position
    → ((motion_apply c true n o).controlword ≡ 0x001f)
      ↔ ((c.mode ≢ mode_csp) × (pos 0 ≤ℤ n) × ¬ (c.pulse_cycles ≤ℤ n))
unfolding motion_apply
motion_apply_pulse c n o h =
    (λ e. (λ m. ground arith, ground arith, λ m. ground arith), λ e. ground arith)
