-- ===== src/Cia402/Profile/Scurve/Plan.antt =====
-- How the segments of a plan follow one another (`scurve_build_position_plan`).
use ether_cat_master.Prelude.{ℕ, zero, suc, ◌≡◌, true, false, Bool-cases, inl, inr, List, [], ◌∷◌}
use ether_cat_master.Prelude.Int.{pos}
use ether_cat_master.Cia402.Double.{Double, ◌⊕◌, ◌⊗◌, ◌⊘◌, nought, half}
use ether_cat_master.Cia402.Profile.{MotionProfile, Segment}
use ether_cat_master.Cia402.Profile.Scurve.{
  Cursor, origin, advance_segment, solve_peak, solve_iterations, choose_peak,
  distance_for_peak_velocity,
}

module _ {W : Type 0} ⦃d : Double W⦄ where
  -- The motion from a segment's start over its time with constant jerk: velocity and position are the
  -- integrals of the acceleration, which changes evenly.
  abbrev pub end_of : Segment W → Cursor W
  end_of s = record {
    position =
        s.position
        ⊕ (s.velocity ⊗ s.time
            ⊕ half ⊗ s.acceleration ⊗ (s.time ⊗ s.time)
            ⊕ s.jerk ⊗ (s.time ⊗ s.time ⊗ s.time) ⊘ d.of_int (pos 6));
    velocity = s.velocity ⊕ (s.acceleration ⊗ s.time ⊕ half ⊗ s.jerk ⊗ (s.time ⊗ s.time));
    acceleration = s.acceleration ⊕ s.jerk ⊗ s.time;
    elapsed = s.start_s ⊕ s.time;
  }

  -- The first segment starts at `c`, each other one where the motion of the one before it ends, and the
  -- last ends at `e`: in time, position, velocity and acceleration.
  abbrev pub Chains : Cursor W → List (Segment W) → Cursor W → Type 0
  Chains c [] e = c ≡ e
  Chains c (s ∷ rest) e =
      (s.start_s ≡ c.elapsed)
      × (s.position ≡ c.position)
      × (s.velocity ≡ c.velocity)
      × (s.acceleration ≡ c.acceleration)
      × Chains (end_of s) rest e

  abbrev pub times_and_jerks : List (Segment W) → List (W × W)
  times_and_jerks [] = []
  times_and_jerks (s ∷ rest) = (s.time, s.jerk) ∷ times_and_jerks rest

  -- The shape of an S-curve: the acceleration rises with the jerk `up`, stays and falls with the same
  -- jerk in the same time; after a cruise, the deceleration does so with the jerk `down`.
  pub record IsScurve (segments : List (Segment W)) : Type 0 where
    pub up : W
    pub up_time : W
    pub up_stay : W
    pub cruise : W
    pub down : W
    pub down_time : W
    pub down_stay : W
    pub shape :
        times_and_jerks segments
        ≡ (up_time, up)
          ∷ (up_stay, nought)
          ∷ (up_time, d.negate up)
          ∷ (cruise, nought)
          ∷ (down_time, d.negate down)
          ∷ (down_stay, nought)
          ∷ (down_time, down)
          ∷ []

  -- The segment that starts at a cursor.
  abbrev segment_at : Cursor W → W → W → Segment W
  segment_at c jerk time = record {
    start_s = c.elapsed;
    position = c.position;
    velocity = c.velocity;
    acceleration = c.acceleration;
    jerk = jerk;
    time = time;
  }

  -- The segments of a list of durations and jerks, and where they end.
  unfoldable segments_from : Cursor W → List (W × W) → List (Segment W)
  segments_from c [] = []
  segments_from c ((time, jerk) ∷ rest) =
      segment_at c jerk time ∷ segments_from (advance_segment c jerk time) rest

  unfoldable end_from : Cursor W → List (W × W) → Cursor W
  end_from c [] = c
  end_from c ((time, jerk) ∷ rest) = end_from (advance_segment c jerk time) rest

  solve_peak-le :
      (n : ℕ) (distance_at : W → W) (distance low high : W)
      → d.le (distance_at low) distance ≡ true
      → d.le (distance_at (solve_peak n distance_at distance low high)) distance ≡ true
  unfolding solve_peak
  solve_peak-le zero distance_at distance low high h = h
  solve_peak-le (suc n) distance_at distance low high h =
      elim (Bool-cases (d.le (distance_at ((low ⊕ high) ⊗ half)) distance)) [
        | inl e ↦ rw e (solve_peak-le n distance_at distance _ high e)
        | inr e ↦ rw e (solve_peak-le n distance_at distance low _ h)
      ]

  -- What a plan that is made satisfies.
  pub record IsPlan (p : MotionProfile W) : Type 0 where
    pub valid : p.planner_valid ≡ true
    pub scurve : IsScurve p.planner_segments
    pub end : Cursor W
    pub chained : Chains origin p.planner_segments end
    pub total : p.planner_total_s ≡ end.elapsed
    pub not_empty : d.le end.elapsed nought ≡ false

  -- Where the peak velocity is found by bisection, the phases that speed up and slow down take no
  -- longer way than there is, if those of the peak 0 do.
  pub choose_peak_fits :
      (p : MotionProfile W) (distance accel_jerk decel_jerk : W)
      → d.le
          (distance_for_peak_velocity nought p.acceleration p.deceleration accel_jerk decel_jerk)
          distance
        ≡ true
      → d.le
          (distance_for_peak_velocity
            (choose_peak p distance accel_jerk decel_jerk).0
            p.acceleration
            p.deceleration
            accel_jerk
            decel_jerk)
          distance
        ≡ true
  unfolding choose_peak
  choose_peak_fits p distance accel_jerk decel_jerk h =
      elim (Bool-cases (
        d.le
          (distance_for_peak_velocity p.max_velocity p.acceleration p.deceleration accel_jerk
            decel_jerk)
          distance)) [
            | inl e ↦ rw e e
            | inr e ↦ rw e (
                solve_peak-le solve_iterations
                  (λ v.
                    distance_for_peak_velocity v p.acceleration p.deceleration accel_jerk
                      decel_jerk)
                  distance nought p.max_velocity h)
          ]
