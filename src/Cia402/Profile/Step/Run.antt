-- ===== src/Cia402/Profile/Step/Run.antt =====
-- What a cycle of `cia402_profile_step` guarantees, whatever the motion.
use ether_cat_master.Prelude.{ℕ, ◌≡◌, ◌≢◌, true, false, arith}
use ether_cat_master.Prelude.Int.{ℤ, pos}
use ether_cat_master.Cia402.Double.{Double, IsOrdered, ◌⊖◌, nought}
use ether_cat_master.Cia402.Command.{
  MotionType, motion_none, servo_stop, profile_position, home, MotionCommand, PdoOutput,
}
use ether_cat_master.Cia402.Profile.{MotionProfile, round_to_i32, normalize_jerk_ratio}
use ether_cat_master.Cia402.Profile.Ramp.{ramp_velocity_by_profile, profile_ramp_time_s}
use ether_cat_master.Cia402.Profile.Position.Settled.{
  IsSettled, step_position_profile-IsSettled, step_position_profile_done, profile_begin-IsSettled,
}
use ether_cat_master.Cia402.Profile.Step.{cycle_time, current_profile, profile_step}

-- The word that goes with a motion.
abbrev pub word_of : MotionType → ℕ
word_of servo_stop = 0x010f
word_of home = 0x001f
word_of _ = 0x000f

module _ {W : Type 0} ⦃d : Double W⦄ where
  -- Every cycle of a motion sends the motion's controlword and a mode of operation, and records in
  -- the profile what it put out and that one more cycle has passed.
  pub profile_step_records :
      (p : MotionProfile W) (c : MotionCommand W) (position velocity period : ℤ) (o : PdoOutput)
      → c.type ≢ motion_none
      → let (q, out, finished) = profile_step p c position velocity period o in
        (out.controlword ≡ word_of c.type)
        × (out.mode ≢ pos 0)
        × (q.output_position ≡ out.target_position)
        × (q.output_velocity ≡ out.target_velocity)
        × (finished ≡ q.done)
  unfolding profile_step
  profile_step_records p c position velocity period o h = ground arith

  -- A velocity motion, a stop and homing never ask for a jump: the target position that goes out is
  -- the actual position.
  pub profile_step_holds_position :
      (p : MotionProfile W) (c : MotionCommand W) (position velocity period : ℤ) (o : PdoOutput)
      → c.type ≢ motion_none
      → c.type ≢ profile_position
      → (profile_step p c position velocity period o).1.target_position ≡ position
  unfolding profile_step
  profile_step_holds_position p c position velocity period o h k = ground arith

  -- The invariant of a position motion between cycles.
  abbrev pub IsReady : MotionProfile W → Type 0
  IsReady p = p.active ≡ true → p.type ≡ profile_position → IsSettled p

  current_profile-IsSettled :
      (p : MotionProfile W) (c : MotionCommand W) (position velocity : ℤ)
      → c.type ≡ profile_position
      → IsReady p
      → IsSettled (current_profile p c position velocity)
        × ((current_profile p c position velocity).active ≡ true)
        × ((current_profile p c position velocity).type ≡ profile_position)
  unfolding current_profile
  current_profile-IsSettled p c position velocity h r =
      ground (arith, profile_begin-IsSettled c position velocity h)

  current_same :
      (p : MotionProfile W) (c : MotionCommand W) (position velocity : ℤ)
      → p.active ≡ true
      → p.type ≡ profile_position
      → c.type ≡ profile_position
      → current_profile p c position velocity ≡ p
  unfolding current_profile
  current_same p c position velocity a t h = ground arith

  -- A position motion keeps its invariant from any state of the profile, and where a cycle returns
  -- "done" it asks for the target position exactly, at velocity zero.
  pub profile_step-IsReady :
      (p : MotionProfile W) (c : MotionCommand W) (position velocity period : ℤ) (o : PdoOutput)
      → c.type ≡ profile_position
      → IsReady p
      → let (q, out, finished) = profile_step p c position velocity period o in
        IsReady q
        × (q.active ≡ true)
        × (q.type ≡ profile_position)
        × (finished ≡ true
            → (out.target_position ≡ round_to_i32 q.target_position)
              × (out.target_velocity ≡ round_to_i32 {W = W} nought))
  unfolding profile_step
  profile_step-IsReady p c position velocity period o h r = ground (
    arith,
    current_profile-IsSettled p c position velocity h r,
    step_position_profile-IsSettled (current_profile p c position velocity) (cycle_time period),
  )

  -- A position motion that is done is done in every later cycle of the same command, and goes on
  -- asking for its target.
  pub profile_step_done_stays :
      (p : MotionProfile W) (c : MotionCommand W) (position velocity period : ℤ) (o : PdoOutput)
      → c.type ≡ profile_position
      → p.active ≡ true
      → p.type ≡ profile_position
      → p.done ≡ true
      → IsReady p
      → let (q, out, finished) = profile_step p c position velocity period o in
        (finished ≡ true)
        × (q.position ≡ p.position)
        × (q.target_position ≡ p.target_position)
        × (out.target_position ≡ round_to_i32 p.target_position)
        × (out.target_velocity ≡ round_to_i32 {W = W} nought)
  unfolding profile_step
  profile_step_done_stays p c position velocity period o h a t e r = ground (
    arith,
    current_same p c position velocity,
    step_position_profile_done p (cycle_time period) e,
    r a t e,
  )

  -- The ramp of a profile with a ramp time never passes the target velocity: if it starts below the
  -- target it does not end above it, and the other way round.
  pub ramp_velocity_by_profile_no_overshoot :
      (p : MotionProfile W) (target dt_s : W)
      → IsOrdered d
      → d.le (profile_ramp_time_s p) nought ≡ false
      → (d.lt nought (target ⊖ p.velocity) ≡ true
          → d.lt target (ramp_velocity_by_profile p target dt_s).0 ≡ false)
        × (d.lt (target ⊖ p.velocity) nought ≡ true
            → d.lt (ramp_velocity_by_profile p target dt_s).0 target ≡ false)
  unfolding ramp_velocity_by_profile
  ramp_velocity_by_profile_no_overshoot p target dt_s l h = ground (arith, l.lt_irrefl target)

  -- Whatever jerk ratio a command gives, the one that a profile works with is neither below 0 nor
  -- above 1.
  pub normalize_jerk_ratio_range :
      (r : W)
      → IsOrdered d
      → (d.lt (normalize_jerk_ratio r) nought ≡ false)
        × (d.lt (d.of_int (pos 1)) (normalize_jerk_ratio r) ≡ false)
  unfolding normalize_jerk_ratio
  normalize_jerk_ratio_range r l = ground (
    arith,
    l.lt_irrefl nought,
    l.lt_irrefl (d.of_int (pos 1)),
    l.lt_asym nought (d.of_int (pos 1)),
  )
