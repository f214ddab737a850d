-- ===== src/Cia402/Profile/Scurve.antt =====
-- The seven-segment plan: `scurve_phase_from_peak_velocity`, `scurve_build_position_plan`.
pub mod Plan
use ether_cat_master.Prelude.{
  ℕ, zero, suc, Bool, true, false, ◌||◌, if◌then◌else◌, List, [], ◌∷◌, set, ◌+◌,
}
use ether_cat_master.Prelude.Int.{ℤ, pos}
use ether_cat_master.Cia402.Double.{Double, ◌⊕◌, ◌⊖◌, ◌⊗◌, ◌⊘◌, nought, half}
use ether_cat_master.Cia402.Profile.{
  MotionProfile, Segment, zero_segments, abs_double, max_double, epsilon,
}
use ether_cat_master.Cia402.Profile.Ramp.{profile_ramp_time_s}

pub record ScurvePhase (W : Type 0) : Type 0 where
  pub tj : W
  pub ta : W
  pub distance : W

-- Position, velocity and acceleration at the start of a segment, and the time elapsed.
pub record Cursor (W : Type 0) : Type 0 where
  pub position : W
  pub velocity : W
  pub acceleration : W
  pub elapsed : W

abbrev pub solve_iterations : ℕ
solve_iterations = 80

module _ {W : Type 0} ⦃d : Double W⦄ where
  unfoldable pub phase_from_peak_velocity : W → W → W → ScurvePhase W
  phase_from_peak_velocity peak_velocity acceleration jerk =
      let full_tj : W = acceleration ⊘ jerk in
      let ta : W = peak_velocity ⊘ acceleration ⊖ full_tj in
      let tj : W = d.sqrt (peak_velocity ⊘ jerk) in
      if d.le peak_velocity nought || (d.le acceleration nought || d.le jerk nought)
      then record { tj = nought; ta = nought; distance = nought }
      else if d.le (acceleration ⊗ full_tj) peak_velocity
      then record {
        tj = full_tj;
        ta = ta;
        distance =
            acceleration ⊗ full_tj ⊗ full_tj
            ⊕ d.ratio 3 2 ⊗ acceleration ⊗ full_tj ⊗ ta
            ⊕ half ⊗ acceleration ⊗ ta ⊗ ta;
      }
      else record { tj = tj; ta = nought; distance = peak_velocity ⊗ tj }

  unfoldable pub distance_for_peak_velocity : W → W → W → W → W → W
  distance_for_peak_velocity peak_velocity acceleration deceleration accel_jerk decel_jerk =
      (phase_from_peak_velocity peak_velocity acceleration accel_jerk).distance
      ⊕ (phase_from_peak_velocity peak_velocity deceleration decel_jerk).distance

  unfoldable pub store_segment : List (Segment W) → ℕ → W → W → W → W → W → W → List (Segment W)
  store_segment segments segment start_s position velocity acceleration jerk duration =
      set segments segment (record {
        start_s = start_s;
        position = position;
        velocity = velocity;
        acceleration = acceleration;
        jerk = jerk;
        time = duration;
      })

  -- Also adds the duration to the time elapsed, as the loop does next.
  unfoldable pub advance_segment : Cursor W → W → W → Cursor W
  advance_segment c jerk duration =
      let dt2 : W = duration ⊗ duration in
      let dt3 : W = dt2 ⊗ duration in
      record {
        position =
            c.position
            ⊕ (c.velocity ⊗ duration ⊕ half ⊗ c.acceleration ⊗ dt2 ⊕ jerk ⊗ dt3 ⊘ d.of_int (pos 6));
        velocity = c.velocity ⊕ (c.acceleration ⊗ duration ⊕ half ⊗ jerk ⊗ dt2);
        acceleration = c.acceleration ⊕ jerk ⊗ duration;
        elapsed = c.elapsed ⊕ duration;
      }

  -- The loop over the segments, each a duration and a jerk.
  unfoldable pub store_segments :
      List (W × W) → ℕ → Cursor W → List (Segment W) → Cursor W × List (Segment W)
  store_segments [] i c segments = (c, segments)
  store_segments ((time, jerk) ∷ rest) i c segments =
      store_segments rest (suc i) (advance_segment c jerk time)
        (store_segment segments i c.elapsed c.position c.velocity c.acceleration jerk time)

  -- `CIA402_SCURVE_SOLVE_ITERATIONS` rounds of bisection for the peak velocity.
  unfoldable pub solve_peak : ℕ → (W → W) → W → W → W → W
  solve_peak zero distance_at distance low high = low
  solve_peak (suc n) distance_at distance low high =
      let mid : W = (low ⊕ high) ⊗ half in
      let fits : Bool = d.le (distance_at mid) distance in
      solve_peak n distance_at distance (if fits then mid else low) (if fits then high else mid)

  -- The plan is thrown away at the start.
  abbrev pub clear_plan : MotionProfile W → MotionProfile W
  clear_plan p = record p {
    planner_valid = false;
    planner_elapsed_s = nought;
    planner_total_s = nought;
    planner_segments = zero_segments;
  }

  abbrev pub origin : Cursor W
  origin = record { position = nought; velocity = nought; acceleration = nought; elapsed = nought }

  abbrev pub segment_list : ScurvePhase W → ScurvePhase W → W → W → W → List (W × W)
  segment_list accel decel cruise_time accel_jerk decel_jerk =
      (accel.tj, accel_jerk)
      ∷ (accel.ta, nought)
      ∷ (accel.tj, d.negate accel_jerk)
      ∷ (cruise_time, nought)
      ∷ (decel.tj, d.negate decel_jerk)
      ∷ (decel.ta, nought)
      ∷ (decel.tj, decel_jerk)
      ∷ []

  -- The peak velocity and the time at that velocity.
  unfoldable pub choose_peak : MotionProfile W → W → W → W → W × W
  choose_peak p distance accel_jerk decel_jerk =
      let distance_at : W → W =
        λ v. distance_for_peak_velocity v p.acceleration p.deceleration accel_jerk decel_jerk in
      let full : W = distance_at p.max_velocity in
      if d.le full distance
      then (p.max_velocity, (distance ⊖ full) ⊘ p.max_velocity)
      else (solve_peak solve_iterations distance_at distance nought p.max_velocity, nought)

  -- The last checks, and the fields of the plan.
  unfoldable pub finish_plan :
      MotionProfile W → W → W → Cursor W → List (Segment W) → MotionProfile W × Bool
  finish_plan p distance peak_velocity end segments =
      if d.le peak_velocity epsilon
      then (p, false)
      else if d.le end.elapsed nought
      then (record p { planner_segments = segments }, false)
      else (
        record p {
          planner_valid = true;
          planner_start_position = p.position;
          planner_distance = distance;
          planner_direction =
              if d.le p.position p.target_position
              then d.of_int (pos 1)
              else d.negate (d.of_int (pos 1));
          planner_total_s = end.elapsed;
          planner_segments = segments;
        },
        true,
      )

  -- The part after the early returns, from the distance and the two jerks.
  unfoldable pub plan_segments : MotionProfile W → W → W → W → MotionProfile W × Bool
  unfolding finish_plan
  plan_segments p distance accel_jerk decel_jerk =
      let (peak_velocity, cruise_time) = choose_peak p distance accel_jerk decel_jerk in
      let accel : ScurvePhase W =
        phase_from_peak_velocity peak_velocity p.acceleration accel_jerk in
      let decel : ScurvePhase W =
        phase_from_peak_velocity peak_velocity p.deceleration decel_jerk in
      let (end, segments) =
        store_segments (segment_list accel decel cruise_time accel_jerk decel_jerk) 0 origin
          zero_segments in
      finish_plan p distance peak_velocity end segments

  abbrev pub plan_distance : MotionProfile W → W
  plan_distance p = abs_double (p.target_position ⊖ p.position)

  abbrev pub plan_ramp_time : MotionProfile W → W
  plan_ramp_time p = max_double (profile_ramp_time_s p) (d.ratio 1 1000)

  -- The early returns, in their order.
  unfoldable pub cannot_plan : MotionProfile W → Bool
  cannot_plan p =
      d.le (plan_distance p) epsilon
      || d.lt epsilon (abs_double p.velocity)
      || (d.le p.max_velocity nought || d.le p.acceleration nought || d.le p.deceleration nought)
      || d.le (profile_ramp_time_s p) nought
      || (d.le (p.acceleration ⊘ plan_ramp_time p) nought
          || d.le (p.deceleration ⊘ plan_ramp_time p) nought)

  -- The profile, and whether there is a plan.
  unfoldable pub build_position_plan : MotionProfile W → MotionProfile W × Bool
  unfolding abs_double max_double
  build_position_plan p =
      if cannot_plan p
      then (clear_plan p, false)
      else plan_segments (clear_plan p) (plan_distance p) (p.acceleration ⊘ plan_ramp_time p)
          (p.deceleration ⊘ plan_ramp_time p)
