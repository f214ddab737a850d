-- ===== src/Cia402/Profile/Position/Settled.antt =====
-- When a position motion is done (`step_position_profile` and its two ways).
use ether_cat_master.Prelude.{◌≡◌, refl, true, false, Bool-cases, inl, inr, arith}
use ether_cat_master.Prelude.Int.{ℤ}
use ether_cat_master.Cia402.Double.{Double, nought}
use ether_cat_master.Cia402.Command.{MotionCommand, profile_position}
use ether_cat_master.Cia402.Profile.{MotionProfile, profile_begin}
use ether_cat_master.Cia402.Profile.Scurve.{
  clear_plan, cannot_plan, plan_segments, build_position_plan,
}
use ether_cat_master.Cia402.Profile.Position.{
  move, step_trapezoidal, advance_plan, step_smooth, step_position_profile,
}

module _ {W : Type 0} ⦃d : Double W⦄ where
  abbrev pub IsSettled : MotionProfile W → Type 0
  IsSettled p = p.done ≡ true → (p.position ≡ p.target_position) × (p.velocity ≡ nought)

  -- What a plan leaves alone.
  abbrev SameMotion : MotionProfile W → MotionProfile W → Type 0
  SameMotion p q =
      (q.done ≡ p.done)
      × (q.position ≡ p.position)
      × (q.velocity ≡ p.velocity)
      × (q.target_position ≡ p.target_position)
      × (q.type ≡ p.type)
      × (q.active ≡ p.active)

  -- The frame of a whole cycle.
  abbrev pub SameTarget : MotionProfile W → MotionProfile W → Type 0
  SameTarget p q =
      (q.target_position ≡ p.target_position) × (q.type ≡ p.type) × (q.active ≡ p.active)

  plan_segments-SameMotion :
      (p : MotionProfile W) (distance accel_jerk decel_jerk : W)
      → SameMotion p (plan_segments p distance accel_jerk decel_jerk).0
  unfolding plan_segments
  plan_segments-SameMotion p distance accel_jerk decel_jerk = ground arith

  build_position_plan-SameMotion : (p : MotionProfile W) → SameMotion p (build_position_plan p).0
  unfolding build_position_plan
  build_position_plan-SameMotion p = elim (Bool-cases (cannot_plan p)) [
    | inl e ↦ rw e (refl, refl, refl, refl, refl, refl)
    | inr e ↦ rw e (plan_segments-SameMotion (clear_plan p) _ _ _)
  ]

  move-IsSettled :
      (p : MotionProfile W) (direction v dt_s : W)
      → p.done ≡ false
      → IsSettled (move p direction v dt_s) × SameTarget p (move p direction v dt_s)
  unfolding move
  move-IsSettled p direction v dt_s h = ground arith

  step_trapezoidal-IsSettled :
      (p : MotionProfile W) (dt_s : W)
      → IsSettled p
      → IsSettled (step_trapezoidal p dt_s) × SameTarget p (step_trapezoidal p dt_s)
  unfolding step_trapezoidal
  step_trapezoidal-IsSettled p dt_s h = ground arith

  advance_plan-IsSettled :
      (p : MotionProfile W) (dt_s : W)
      → p.done ≡ false
      → IsSettled (advance_plan p dt_s) × SameTarget p (advance_plan p dt_s)
  unfolding advance_plan
  advance_plan-IsSettled p dt_s h = ground arith

  -- The three ways of a smooth cycle.
  step_smooth-IsSettled :
      (p : MotionProfile W) (dt_s : W)
      → IsSettled p
      → IsSettled (step_smooth p dt_s) × SameTarget p (step_smooth p dt_s)
  unfolding step_smooth
  step_smooth-IsSettled p dt_s h = ground (
    arith,
    build_position_plan-SameMotion p,
    advance_plan-IsSettled p dt_s,
    advance_plan-IsSettled (build_position_plan p).0 dt_s,
    step_trapezoidal-IsSettled (build_position_plan p).0 dt_s,
  )

  -- A cycle towards a position keeps the target, and where it reports the motion done, the profile
  -- stands exactly at the target with velocity zero.
  pub step_position_profile-IsSettled :
      (p : MotionProfile W) (dt_s : W)
      → IsSettled p
      → IsSettled (step_position_profile p dt_s) × SameTarget p (step_position_profile p dt_s)
  unfolding step_position_profile
  step_position_profile-IsSettled p dt_s h =
      ground (arith, step_trapezoidal-IsSettled p dt_s h, step_smooth-IsSettled p dt_s h)

  -- A finished motion does not move again.
  pub step_position_profile_done :
      (p : MotionProfile W) (dt_s : W) → p.done ≡ true → step_position_profile p dt_s ≡ p
  unfolding step_position_profile
  step_position_profile_done p dt_s h = ground arith

  pub profile_begin-IsSettled :
      (c : MotionCommand W) (position velocity : ℤ)
      → c.type ≡ profile_position
      → IsSettled (profile_begin c position velocity)
        × ((profile_begin c position velocity).active ≡ true)
        × ((profile_begin c position velocity).type ≡ profile_position)
  unfolding profile_begin
  profile_begin-IsSettled c position velocity h = ground arith
