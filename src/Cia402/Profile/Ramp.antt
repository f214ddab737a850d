-- ===== src/Cia402/Profile/Ramp.antt =====
-- Velocity ramps: `ramp_velocity`, `profile_ramp_time_s`, `slew_acceleration`,
-- `ramp_velocity_by_profile`.
use ether_cat_master.Prelude.{zero, suc, Bool, ◌&&◌, ◌||◌, if◌then◌else◌}
use ether_cat_master.Prelude.Int.{ℤ, pos}
use ether_cat_master.Cia402.Double.{Double, ◌⊕◌, ◌⊖◌, ◌⊗◌, ◌⊘◌, nought}
use ether_cat_master.Cia402.Profile.{
  MotionProfile, normalize_profile_type, normalize_jerk_ratio, abs_double, max_double, epsilon,
}

module _ {W : Type 0} ⦃d : Double W⦄ where
  -- `target == 0.0 || abs_double(target) < abs_double(current)`
  abbrev is_slowing : W → W → Bool
  is_slowing target current = d.eq target nought || d.lt (abs_double target) (abs_double current)

  unfoldable pub ramp_velocity : W → W → W → W → W → W
  unfolding abs_double
  ramp_velocity current target acceleration deceleration dt_s =
      let delta : W = target ⊖ current in
      let limit : W = (if is_slowing target current then deceleration else acceleration) ⊗ dt_s in
      if d.le (abs_double delta) epsilon
      then target
      else if d.le limit nought
      then target
      else if d.le (abs_double delta) limit
      then target
      else current ⊕ (if d.lt nought delta then limit else d.negate limit)

  ramp_time_of : ℤ → W → W
  ramp_time_of (pos zero) jerk_ratio = d.ratio 35 100
  ramp_time_of (pos (suc (suc zero))) jerk_ratio = d.ratio 25 100
  ramp_time_of (pos (suc (suc (suc zero)))) jerk_ratio =
      d.ratio 3 100 ⊕ normalize_jerk_ratio jerk_ratio ⊗ d.ratio 30 100
  ramp_time_of _ jerk_ratio = nought

  -- `profile` is not null.
  unfoldable pub profile_ramp_time_s : MotionProfile W → W
  unfolding ramp_time_of
  profile_ramp_time_s p = ramp_time_of (normalize_profile_type p.profile_type) p.jerk_ratio

  -- The new `acceleration_state`, which is also the result.
  unfoldable pub slew_acceleration : MotionProfile W → W → W → W
  unfolding profile_ramp_time_s max_double abs_double
  slew_acceleration p target_acceleration dt_s =
      let ramp_time : W = profile_ramp_time_s p in
      let max_acceleration : W = max_double p.acceleration p.deceleration in
      let max_delta : W = max_acceleration ⊘ ramp_time ⊗ dt_s in
      let delta : W = target_acceleration ⊖ p.acceleration_state in
      if d.le ramp_time nought
      then target_acceleration
      else if d.le max_acceleration nought
      then target_acceleration
      else if d.le (abs_double delta) max_delta
      then target_acceleration
      else p.acceleration_state ⊕ (if d.lt nought delta then max_delta else d.negate max_delta)

  -- The velocity of the next cycle, and the profile with its new `acceleration_state`.
  unfoldable pub ramp_velocity_by_profile : MotionProfile W → W → W → W × MotionProfile W
  unfolding ramp_velocity slew_acceleration profile_ramp_time_s abs_double
  ramp_velocity_by_profile p target dt_s =
      let delta : W = target ⊖ p.velocity in
      let limit_acceleration : W =
        if is_slowing target p.velocity then p.deceleration else p.acceleration in
      let target_acceleration : W =
        if d.lt nought delta then limit_acceleration else d.negate limit_acceleration in
      let acceleration : W = slew_acceleration p target_acceleration dt_s in
      let next_velocity : W = p.velocity ⊕ acceleration ⊗ dt_s in
      let passes : Bool =
        d.lt nought delta && d.lt target next_velocity
        || d.lt delta nought && d.lt next_velocity target in
      if d.le (profile_ramp_time_s p) nought
      then (ramp_velocity p.velocity target p.acceleration p.deceleration dt_s, p)
      else if d.le (abs_double delta) epsilon
      then (target, record p { acceleration_state = nought })
      else if passes
      then (target, record p { acceleration_state = nought })
      else (next_velocity, record p { acceleration_state = acceleration })
