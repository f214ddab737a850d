-- ===== src/Dc/Trigger.antt =====
-- `ecx_dcsync01` on registers that keep what is written.
use ether_cat_master.Prelude.{
  ℕ, ◌+◌, ◌%◌, ◌<◌, ◌≤◌, ◌≡◌, refl, ◌∙◌, ◌==◌, Bool, false, ◌&&◌, ◌||◌, if◌then◌else◌, arith, some,
  ◌≢◌,
}
use ether_cat_master.Prelude.Int.{ℤ, pos, ◌+ℤ◌, neg_part, pos_part}
use ether_cat_master.Memory.{Array}
use ether_cat_master.Dc.{Slave, Registers}
use ether_cat_master.Dc.Sync.{
  sync_delay, start_time, true_cycl_time, dcsync01, set_sync01, sync_slave,
}
use ether_cat_master.Dc.Start.{start_time_lem, true_cycl_time_lem}

abbrev pub RegisterFile : Type 0
RegisterFile = ℕ → ℕ → ℤ

unfoldable pub write : RegisterFile → ℕ → ℕ → ℤ → RegisterFile
write file slaveh reg value a r = if a == slaveh && r == reg then value else file a r

-- Every access succeeds.
abbrev pub file : Registers RegisterFile
file = record {
  bwr = λ regs reg length value a r. if r == reg then value else regs a r;
  fprd = λ regs slaveh reg length old. (regs, regs slaveh reg);
  fpwr = λ regs slaveh reg length value. write regs slaveh reg value;
}

write_self : (regs : RegisterFile) (a r : ℕ) (v : ℤ) → write regs a r v a r ≡ v
unfolding write
write_self regs a r v = ground arith

write_other :
    (regs : RegisterFile) (a r r' : ℕ) (v : ℤ) → r' ≢ r → write regs a r v a r' ≡ regs a r'
unfolding write
write_other regs a r r' v h = ground arith

-- The registers of the slave when the function has written them.
set_sync01_lem :
    (regs : RegisterFile) (slaveh t1 cycl_time0 cycl_time1 : ℕ) (act : Bool) (shift : ℤ)
    → regs slaveh 0x910 ≡ pos t1
    → (set_sync01 file regs slaveh act cycl_time0 cycl_time1 shift slaveh 0x990
        ≡ start_time (pos t1) cycl_time0 (true_cycl_time cycl_time0 cycl_time1) shift)
      × (set_sync01 file regs slaveh act cycl_time0 cycl_time1 shift slaveh 0x981
          ≡ pos (if act then 7 else 0))
unfolding set_sync01 write
set_sync01_lem regs slaveh t1 cycl_time0 cycl_time1 act shift time = ground arith

-- `ecx_dcsync01` on a slave whose registers keep what is written, with a cycle of SYNC0 above 0, cycles
-- whose sum is below 2 ^ 32, a shift of 32 bits and a local time below 2 ^ 62: the start time that it writes is a whole number of
-- the true cycle plus the shift; that number lies behind the local time and the delay, by at most one
-- true cycle; and the slave is activated as asked.
pub dcsync01_lem :
    (regs : RegisterFile) (slaves : Array Slave) (slave t1 cycl_time0 cycl_time1 : ℕ) (act : Bool)
    (shift : ℤ)
    → regs (slaves slave).configadr 0x910 ≡ pos t1
    → t1 < 4611686018427387904
    → 0 < cycl_time0
    → cycl_time0 + cycl_time1 < 4294967296
    → pos_part shift < 2147483648
    → neg_part shift ≤ 2147483648
    → (done : RegisterFile × Array Slave) × (m : ℕ) × (dcsync01 file
          (regs, slaves)
          slave
          act
          cycl_time0
          cycl_time1
          shift
        ≡ some done)
      × (done.0 (slaves slave).configadr 0x990 ≡ pos m +ℤ shift)
      × (done.0 (slaves slave).configadr 0x981 ≡ pos (if act then 7 else 0))
      × (m % true_cycl_time cycl_time0 cycl_time1 ≡ 0)
      × (t1 + sync_delay < m)
      × (m ≤ t1 + sync_delay + true_cycl_time cycl_time0 cycl_time1)
unfolding dcsync01
dcsync01_lem regs slaves slave t1 cycl_time0 cycl_time1 act shift time small some_cycle word above
      below =
    let (whole, longer, within) = true_cycl_time_lem cycl_time0 cycl_time1 some_cycle word in
    let (m, start, multiple, after, soon) =
      start_time_lem t1 cycl_time0 (true_cycl_time cycl_time0 cycl_time1) shift some_cycle
        (omega arith) (omega arith) small above below in
    let slaveh = (slaves slave).configadr in
    let (starts, active) = set_sync01_lem regs slaveh t1 cycl_time0 cycl_time1 act shift time in
    let divides : (cycl_time0 == 0 || true_cycl_time cycl_time0 cycl_time1 == 0) ≡ false =
      ground arith in
    (
      (
        set_sync01 file regs slaveh act cycl_time0 cycl_time1 shift,
        sync_slave slaves slave act shift cycl_time0,
      ),
      m,
      rw divides refl,
      starts ∙ start,
      active,
      multiple,
      after,
      soon,
    )
