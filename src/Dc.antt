-- ===== src/Dc.antt =====
-- Distributed clocks (src/ec_dc.c): slaves, registers, and the integers of C.
pub mod Ports
pub mod Sync
pub mod Ring
pub mod Start
pub mod Configure
pub mod Links
pub mod Chain
pub mod Trigger
pub mod Entry
mod Tests
use ether_cat_master.Prelude.{
  ℕ, ◌+◌, ◌-◌, ◌*◌, ◌/◌, ◌%◌, ◌==◌, ltb, Bool, true, false, if◌then◌else◌,
}
use ether_cat_master.Prelude.Int.{ℤ, pos, negsuc, sub_ℕ, ltb_ℤ}
use ether_cat_master.Memory.{Array, update}

-- The fields of `ec_slavet` that the distributed clocks use.
pub record Slave : Type 0 where
  pub configadr : ℕ
  pub hasdc : Bool
  pub topology : ℕ
  pub activeports : ℕ
  pub consumedports : ℕ
  pub parent : ℕ
  pub parentport : ℕ
  pub entryport : ℕ
  pub dc_rt_a : ℤ
  pub dc_rt_b : ℤ
  pub dc_rt_c : ℤ
  pub dc_rt_d : ℤ
  pub pdelay : ℤ
  pub dc_next : ℕ
  pub dc_previous : ℕ
  pub dc_cycle : ℤ
  pub dc_shift : ℤ
  pub dc_active : ℕ
  pub group : ℕ

-- The same of `ec_groupt`.
pub record Group : Type 0 where
  pub hasdc : Bool
  pub dc_next : ℕ

-- A change of one slave in the list.
unfoldable pub modify : Array Slave → ℕ → (Slave → Slave) → Array Slave
unfolding update
modify slaves i f = update slaves i (f (slaves i))

-- The registers of all slaves behind the primitives of ec_base.c. A primitive has a register, a length
-- and a value; a read that fails leaves the value that its variable had. The results are not looked at.
pub record Registers (S : Type 0) : Type 0 where
  pub bwr : S → ℕ → ℕ → ℤ → S
  pub fprd : S → ℕ → ℕ → ℕ → ℤ → S × ℤ
  pub fpwr : S → ℕ → ℕ → ℕ → ℤ → S

-- The remainder by 2 * half as a signed number: what an integer of that many values holds.
unfoldable pub wrap : ℕ → ℤ → ℤ
wrap half (pos n) =
    if ltb (n % (2 * half)) half then pos (n % (2 * half)) else sub_ℕ (n % (2 * half)) (2 * half)
wrap half (negsuc n) =
    if ltb (n % (2 * half)) half
    then negsuc (n % (2 * half))
    else pos (2 * half - 1 - n % (2 * half))

abbrev pub int32 : ℤ → ℤ
int32 = wrap 2147483648

abbrev pub int64 : ℤ → ℤ
int64 = wrap 9223372036854775808

-- Division of C, towards 0, by a positive number.
abbrev pub quot : ℤ → ℕ → ℤ
quot (pos n) d = pos (n / d)
quot (negsuc n) d = sub_ℕ 0 ((n + 1) / d)

abbrev pub negated : ℤ → ℤ
negated (pos n) = sub_ℕ 0 n
negated (negsuc n) = pos (n + 1)
