-- ===== src/Cia402/Drive/Tests.antt =====
-- Drive states and sequences on concrete drives.
use ether_cat_master.Prelude.{ℕ, ◌≡◌, ◌⊎◌, refl, arith, ltb, if◌then◌else◌}
use ether_cat_master.Cia402.Drive.{
  State, switched_on, operation_enabled, fault_reaction_active, fault, enable, sequence_controlword,
}
use ether_cat_master.Cia402.Drive.Enable.{
  InFault, FollowsFaultRules, sent, sequence_controlword_safe, sequence_controlword_endless,
}

-- A drive whose fault reaction takes three cycles.
abbrev faulty : ℕ → State
faulty n = if ltb n 3 then fault_reaction_active else fault

faulty-FollowsFaultRules : FollowsFaultRules faulty (sent faulty enable 0)
faulty-FollowsFaultRules = record {
  reacts = λ n e. ground arith;
  holds = λ n e held. ground (arith, e);
}

sequence_controlword_safe_example :
    ((sequence_controlword enable switched_on 0).0 ≡ 0x000f
      → (switched_on ≡ switched_on) ⊎ (switched_on ≡ operation_enabled))
    × ((sequence_controlword enable switched_on 0).0 ≡ 0x0080 → InFault switched_on)
sequence_controlword_safe_example = sequence_controlword_safe enable switched_on 0 (λ e. cc)

sequence_controlword_endless_example : InFault (faulty 7)
sequence_controlword_endless_example =
    sequence_controlword_endless faulty enable 0 faulty-FollowsFaultRules refl 7
