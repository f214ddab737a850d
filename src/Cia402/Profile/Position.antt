-- ===== src/Cia402/Profile/Position.antt =====
-- One cycle towards a position: `step_position_profile` and its two ways.
pub mod Settled
use ether_cat_master.Prelude.{
  ℕ, zero, suc, Bool, true, false, ◌&&◌, ◌||◌, not, if◌then◌else◌, List, [], ◌∷◌,
}
use ether_cat_master.Prelude.Int.{ℤ, pos}
use ether_cat_master.Cia402.Double.{Double, ◌⊕◌, ◌⊖◌, ◌⊗◌, ◌⊘◌, nought, half}
use ether_cat_master.Cia402.Profile.{
  MotionProfile, Segment, zero_segment, settled, snap, abs_double, max_double, min_double,
  clamp_double, epsilon,
}
use ether_cat_master.Cia402.Profile.Ramp.{profile_ramp_time_s}
use ether_cat_master.Cia402.Profile.Scurve.{build_position_plan}

module _ {W : Type 0} ⦃d : Double W⦄ where
  -- The speed towards the target in the next cycle.
  unfoldable pub next_velocity_along : MotionProfile W → W → W → W → W
  next_velocity_along p remaining velocity_along dt_s =
      let back : W = velocity_along ⊕ p.deceleration ⊗ dt_s in
      let down : W = velocity_along ⊖ p.deceleration ⊗ dt_s in
      let up : W = velocity_along ⊕ p.acceleration ⊗ dt_s in
      let stop_distance : W =
        velocity_along ⊗ velocity_along ⊘ (d.of_int (pos 2) ⊗ p.deceleration) in
      if d.lt velocity_along nought
      then (if d.lt nought back then nought else back)
      else if d.le remaining (stop_distance ⊕ epsilon)
      then (if d.lt down nought then nought else down)
      else if d.lt p.max_velocity up
      then p.max_velocity
      else up

  -- The move of the cycle, with the stop at the target.
  unfoldable pub move : MotionProfile W → W → W → W → MotionProfile W
  move p direction velocity_along dt_s =
      let velocity : W = direction ⊗ velocity_along in
      let q : MotionProfile W = record p {
        velocity = velocity;
        position = p.position ⊕ velocity ⊗ dt_s;
      } in
      if d.lt nought direction && d.le q.target_position q.position
        || d.lt direction nought && d.le q.position q.target_position
      then snap q
      else q

  unfoldable pub step_trapezoidal : MotionProfile W → W → MotionProfile W
  unfolding move abs_double
  step_trapezoidal p dt_s =
      let error : W = p.target_position ⊖ p.position in
      let direction : W =
        if d.le nought error then d.of_int (pos 1) else d.negate (d.of_int (pos 1)) in
      let velocity_along : W =
        next_velocity_along p (abs_double error) (p.velocity ⊗ direction) dt_s in
      if p.done then p else if settled p then snap p else move p direction velocity_along dt_s

  -- The segment in which `elapsed` lies: the last one if there is none.
  unfoldable pub find_segment : List (Segment W) → W → Segment W
  find_segment [] elapsed = zero_segment
  find_segment (s ∷ []) elapsed = s
  find_segment (s ∷ (t ∷ rest)) elapsed =
      let later : Segment W = find_segment (t ∷ rest) elapsed in
      if d.le elapsed (s.start_s ⊕ s.time) then s else later

  -- The plan at `elapsed`, clamped to the distance and the speed limit.
  unfoldable pub follow_plan : MotionProfile W → W → MotionProfile W
  unfolding find_segment min_double max_double clamp_double
  follow_plan p elapsed =
      let s : Segment W = find_segment p.planner_segments elapsed in
      let tau : W = clamp_double (elapsed ⊖ s.start_s) nought s.time in
      let tau2 : W = tau ⊗ tau in
      let tau3 : W = tau2 ⊗ tau in
      let position : W =
        s.position
        ⊕ s.velocity ⊗ tau
        ⊕ half ⊗ s.acceleration ⊗ tau2
        ⊕ s.jerk ⊗ tau3 ⊘ d.of_int (pos 6) in
      let velocity : W = s.velocity ⊕ s.acceleration ⊗ tau ⊕ half ⊗ s.jerk ⊗ tau2 in
      let acceleration : W = s.acceleration ⊕ s.jerk ⊗ tau in
      record p {
        position =
            p.planner_start_position
            ⊕ p.planner_direction ⊗ min_double (max_double position nought) p.planner_distance;
        velocity = p.planner_direction ⊗ min_double (max_double velocity nought) p.max_velocity;
        acceleration_state = p.planner_direction ⊗ acceleration;
      }

  -- A cycle along a valid plan.
  unfoldable pub advance_plan : MotionProfile W → W → MotionProfile W
  unfolding follow_plan
  advance_plan p dt_s =
      let q : MotionProfile W = record p { planner_elapsed_s = p.planner_elapsed_s ⊕ dt_s } in
      if d.le q.planner_total_s q.planner_elapsed_s
      then record (snap q) { acceleration_state = nought }
      else follow_plan q (clamp_double q.planner_elapsed_s nought q.planner_total_s)

  unfoldable pub step_smooth : MotionProfile W → W → MotionProfile W
  unfolding advance_plan step_trapezoidal
  step_smooth p dt_s =
      let (q, built) = build_position_plan p in
      if p.done
      then p
      else if p.planner_valid
      then advance_plan p dt_s
      else if built
      then advance_plan q dt_s
      else step_trapezoidal q dt_s

  unfoldable pub step_position_profile : MotionProfile W → W → MotionProfile W
  unfolding step_smooth step_trapezoidal
  step_position_profile p dt_s =
      if d.le (profile_ramp_time_s p) nought then step_trapezoidal p dt_s else step_smooth p dt_s
