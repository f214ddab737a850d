-- ===== src/Cia402/Drive/Enable.antt =====
-- What the power sequences ask of a drive, and what they do in a fault.
use ether_cat_master.Prelude.{
  ℕ, zero, suc, ◌/◌, ◌%◌, ◌≡◌, ◌≢◌, ◌↔◌, ◌⊎◌, inl, inr, refl, sym, ap, ◌∙◌, true, arith,
}
use ether_cat_master.Cia402.Drive.{
  State, switch_on_disabled, ready_to_switch_on, switched_on, operation_enabled,
  fault_reaction_active, fault, Sequence, seq_none, fault_reset, shutdown, switch_on, enable,
  disable, sequence_controlword,
}

abbrev pub InFault : State → Type 0
InFault st = (st ≡ fault) ⊎ (st ≡ fault_reaction_active)

-- The states in which a sequence has done its work.
abbrev pub Reached : Sequence → State → Type 0
Reached seq_none st = Unit
Reached fault_reset st = ¬ InFault st
Reached shutdown st = st ≡ ready_to_switch_on
Reached switch_on st = (st ≡ switched_on) ⊎ (st ≡ operation_enabled)
Reached enable st = st ≡ operation_enabled
Reached disable st = st ≡ switch_on_disabled

fault_reset_done :
    (st : State) (manual : ℕ) → ¬ InFault st → (sequence_controlword fault_reset st manual).1 ≡ true
unfolding sequence_controlword
fault_reset_done fault manual r = absurd (r (inl refl))
fault_reset_done fault_reaction_active manual r = absurd (r (inr refl))
fault_reset_done _ manual r = refl

-- The controlword's "target reached" flag is set exactly in the states that the sequence aims at.
pub sequence_controlword-Reached_iff :
    (q : Sequence) (st : State) (manual : ℕ)
    → ((sequence_controlword q st manual).1 ≡ true) ↔ Reached q st
unfolding sequence_controlword
sequence_controlword-Reached_iff seq_none st manual = (λ h. tt, λ h. ground arith)
sequence_controlword-Reached_iff fault_reset st manual =
    (λ h r. ground arith, fault_reset_done st manual)
sequence_controlword-Reached_iff shutdown st manual = (λ h. ground arith, λ h. ground arith)
sequence_controlword-Reached_iff switch_on st manual = (λ h. ground arith, λ h. ground arith)
sequence_controlword-Reached_iff enable st manual = (λ h. ground arith, λ h. ground arith)
sequence_controlword-Reached_iff disable st manual = (λ h. ground arith, λ h. ground arith)

-- Under a sequence, the word 0x000f that enables the power stage is sent only to a drive that is
-- switched on already, and the word 0x0080 that resets a fault is sent only to a drive in fault.
pub sequence_controlword_safe :
    (q : Sequence) (st : State) (manual : ℕ)
    → q ≢ seq_none
    → ((sequence_controlword q st manual).0 ≡ 0x000f
        → (st ≡ switched_on) ⊎ (st ≡ operation_enabled))
      × ((sequence_controlword q st manual).0 ≡ 0x0080 → InFault st)
unfolding sequence_controlword
sequence_controlword_safe q st manual ne = ground arith

-- Bit 7 of the controlword, "fault reset", goes from 0 to 1.
abbrev pub RisingEdge : ℕ → ℕ → Type 0
RisingEdge last w = (last / 128 % 2 ≡ 0) × (w / 128 % 2 ≡ 1)

-- What CiA 402 says of faults (not part of the program), on the states that are read in a row and the
-- words that are sent after each: a fault reaction ends in "fault" and nowhere else, and only a rising
-- edge of the reset bit ends a fault.
pub record FollowsFaultRules (states : ℕ → State) (words : ℕ → ℕ) : Type 0 where
  pub reacts : (n : ℕ) → states n ≡ fault_reaction_active → InFault (states (suc n))
  pub holds :
      (n : ℕ)
      → states (suc n) ≡ fault
      → ¬ RisingEdge (words n) (words (suc n))
      → states (suc (suc n)) ≡ fault

-- In a fault a sequence always sends the same word.
fault_word :
    (q : Sequence) (manual : ℕ)
    → (sequence_controlword q fault manual).0
      ≡ (sequence_controlword q fault_reaction_active manual).0
unfolding sequence_controlword
fault_word seq_none manual = refl
fault_word fault_reset manual = refl
fault_word shutdown manual = refl
fault_word switch_on manual = refl
fault_word enable manual = refl
fault_word disable manual = refl

word-InFault :
    (q : Sequence) (st : State) (manual : ℕ)
    → InFault st
    → (sequence_controlword q st manual).0 ≡ (sequence_controlword q fault manual).0
word-InFault q st manual (inl e) = ap (λ (s : State). (sequence_controlword q s manual).0) e
word-InFault q st manual (inr e) =
    ap (λ (s : State). (sequence_controlword q s manual).0) e ∙ sym (fault_word q manual)

module _ (states : ℕ → State) (q : Sequence) (manual : ℕ) where
  -- The words of a sequence.
  abbrev pub sent : ℕ → ℕ
  sent n = (sequence_controlword q (states n) manual).0

  module _ (f : FollowsFaultRules states sent) where
    no_edge :
        (n : ℕ)
        → InFault (states n)
        → InFault (states (suc n))
        → ¬ RisingEdge (sent n) (sent (suc n))
    no_edge n now after (low, high) =
        let first = word-InFault q (states n) manual now in
        let second = word-InFault q (states (suc n)) manual after in
        absurd (omega (arith, low, high, first, second))

    next_fault :
        (n : ℕ) → InFault (states n) → InFault (states (suc n)) → InFault (states (suc (suc n)))
    next_fault n now (inl is) = inl (f.holds n is (no_edge n now (inl is)))
    next_fault n now (inr is) = f.reacts (suc n) is

    both_fault :
        (n : ℕ) → states 0 ≡ fault_reaction_active → InFault (states n) × InFault (states (suc n))
    both_fault zero start = (inr start, f.reacts 0 start)
    both_fault (suc n) start =
        let (now, after) = both_fault n start in (after, next_fault n now after)

-- A drive that follows the rules of CiA 402 for faults, and that is once seen in "fault reaction active":
-- no sequence that is kept up brings it out of the fault, however long (nor does a manual word that is
-- kept up). The sequences that reset a fault hold the reset bit from the fault reaction on, so that the
-- edge that the drive waits for never comes.
pub sequence_controlword_endless :
    (states : ℕ → State) (q : Sequence) (manual : ℕ)
    → FollowsFaultRules states (sent states q manual)
    → states 0 ≡ fault_reaction_active
    → (n : ℕ) → InFault (states n)
sequence_controlword_endless states q manual f start n = (both_fault states q manual f n start).0
