-- ===== src/Cia402/Drive/Decode.antt =====
-- The decoded state against the bit table of CiA 402.
use ether_cat_master.Prelude.{
  ℕ, ◌%◌, ◌/◌, ◌≡◌, refl, sym, ◌∙◌, ◌↔◌, Bool, true, false, ◌&&◌, ◌||◌, not, arith, ◌==◌,
}
use ether_cat_master.Prelude.Bits.{bit_and-mod_pow, passes_to, passes_to-at}
use ether_cat_master.Cia402.Drive.{
  State, not_ready, switch_on_disabled, ready_to_switch_on, switched_on, operation_enabled,
  quick_stop_active, fault_reaction_active, fault, unknown, state_from_status,
}

-- Bits of the statusword, by weight.
abbrev is_set : ℕ → ℕ → Bool
is_set weight s = s / weight % 2 == 1

abbrev is_clear : ℕ → ℕ → Bool
is_clear weight s = s / weight % 2 == 0

-- Bits 3 to 0.
abbrev nibble : ℕ → ℕ → Bool
nibble v s = s % 16 == v

-- The rows of the standard's table: xxxx xxxx x0xx 0000 and so on.
abbrev table_row : State → ℕ → Bool
table_row not_ready s = is_clear 64 s && nibble 0 s
table_row switch_on_disabled s = is_set 64 s && nibble 0 s
table_row ready_to_switch_on s = is_clear 64 s && (is_set 32 s && nibble 1 s)
table_row switched_on s = is_clear 64 s && (is_set 32 s && nibble 3 s)
table_row operation_enabled s = is_clear 64 s && (is_set 32 s && nibble 7 s)
table_row quick_stop_active s = is_clear 64 s && (is_clear 32 s && nibble 7 s)
table_row fault_reaction_active s = is_clear 64 s && nibble 15 s
table_row fault s = is_clear 64 s && nibble 8 s
table_row unknown s = false

-- `unknown` is for a statusword in no row.
abbrev pub has_row : State → ℕ → Bool
has_row unknown s = not (
    table_row not_ready s
    || table_row switch_on_disabled s
    || table_row ready_to_switch_on s
    || table_row switched_on s
    || table_row operation_enabled s
    || table_row quick_stop_active s
    || table_row fault_reaction_active s
    || table_row fault s)
has_row st s = table_row st s

abbrev number : State → ℕ
number not_ready = 0
number switch_on_disabled = 1
number ready_to_switch_on = 2
number switched_on = 3
number operation_enabled = 4
number quick_stop_active = 5
number fault_reaction_active = 6
number fault = 7
number unknown = 8

number_injective : (a b : State) → number a ≡ number b → a ≡ b
number_injective a b h = ground arith

==_refl : (n : ℕ) → (n == n) ≡ true
==_refl n = ground arith

==_eq : (a b : ℕ) → (a == b) ≡ true → a ≡ b
==_eq a b h = ground arith

abbrev same : Bool → Bool → Bool
same true b = b
same false b = not b

same-eq : (a b : Bool) → same a b ≡ true → a ≡ b
same-eq true b h = sym h
same-eq false true h = cc
same-eq false false h = refl

-- One row at one statusword.
abbrev row_holds : State → ℕ → Bool
row_holds st x = same (number (state_from_status x) == number st) (has_row st x)

table : (st : State) → passes_to (row_holds st) 128 ≡ true
unfolding passes_to state_from_status
table unknown = refl
table not_ready = refl
table switch_on_disabled = refl
table ready_to_switch_on = refl
table switched_on = refl
table operation_enabled = refl
table quick_stop_active = refl
table fault_reaction_active = refl
table fault = refl

-- Only the low seven bits of the statusword are looked at.
low_bits : (s : ℕ) → state_from_status s ≡ state_from_status (s % 128)
unfolding state_from_status
low_bits s = rw (bit_and-mod_pow 7 s 0x4f (omega arith), bit_and-mod_pow 7 s 0x6f (omega arith))

bit6 : (s : ℕ) → s % 128 / 64 % 2 ≡ s / 64 % 2
bit6 s = omega arith

bit5 : (s : ℕ) → s % 128 / 32 % 2 ≡ s / 32 % 2
bit5 s = omega arith

bits3_0 : (s : ℕ) → s % 128 % 16 ≡ s % 16
bits3_0 s = omega arith

has_row-low_bits : (st : State) (s : ℕ) → has_row st (s % 128) ≡ has_row st s
has_row-low_bits unknown s = simp (bit6, bit5, bits3_0)
has_row-low_bits _ s = simp (bit6, bit5, bits3_0)

same_number : (st : State) (s : ℕ) → (number (state_from_status s) == number st) ≡ has_row st s
same_number st s =
    rw (low_bits s, ← has_row-low_bits st s)
      (same-eq _ _ (passes_to-at (row_holds st) 128 (s % 128) (omega arith) (table st)))

-- A statusword decodes to a state exactly if it has the bits of that state's row in the table of
-- CiA 402, and to `unknown` exactly if it is in no row.
pub state_from_status_iff :
    (st : State) (s : ℕ) → (state_from_status s ≡ st) ↔ (has_row st s ≡ true)
state_from_status_iff st s = (
  λ e. sym (same_number st s) ∙ rw e (==_refl (number st)),
  λ h. number_injective _ _ (==_eq _ _ (same_number st s ∙ h)),
)
