-- ===== src/Dc/Sync.antt =====
-- `ecx_dcsync0` and `ecx_dcsync01`: the start time and the registers.
use ether_cat_master.Prelude.{
  ℕ, ◌+◌, ◌*◌, ◌/◌, ◌%◌, ◌==◌, ltb, ◌||◌, Bool, if◌then◌else◌, Option, none, some,
}
use ether_cat_master.Prelude.Int.{ℤ, pos, ◌+ℤ◌, ◌*ℤ◌}
use ether_cat_master.Memory.{Array}
use ether_cat_master.Dc.{Slave, Registers, modify, int32, int64, quot}

abbrev pub sync_delay : ℕ
sync_delay = 100000000

-- The first trigger: with a cycle, a whole number of cycles and the shift.
unfoldable pub start_time : ℤ → ℕ → ℕ → ℤ → ℤ
unfolding ◌+ℤ◌ ◌*ℤ◌
start_time t1 tested cycle shift = int64 (
    if ltb 0 tested
    then quot (int64 (t1 +ℤ pos sync_delay)) cycle *ℤ pos cycle +ℤ pos cycle +ℤ shift
    else t1 +ℤ pos sync_delay +ℤ shift)

-- `TrueCyclTime`, in 32 bits.
unfoldable pub true_cycl_time : ℕ → ℕ → ℕ
true_cycl_time cycl_time0 cycl_time1 =
    (cycl_time1 / cycl_time0 + 1) % 4294967296 * cycl_time0 % 4294967296

-- The fields of the slave that both functions set.
abbrev pub sync_slave : Array Slave → ℕ → Bool → ℤ → ℕ → Array Slave
sync_slave slaves slave act cycl_shift cycl_time = modify slaves slave (λ s. record s {
  dc_active = if act then 1 else 0;
  dc_shift = cycl_shift;
  dc_cycle = int32 (pos cycl_time);
})

module _ {S : Type 0} (reg : Registers S) where
  -- Stop, take the write access, and read the local time.
  abbrev pub stop_cyclic : S → ℕ → S × ℤ
  stop_cyclic bus slaveh =
      let stopped = reg.fpwr bus slaveh 0x981 1 (pos 0) in
      let mine = reg.fpwr stopped slaveh 0x980 1 (pos 0) in reg.fprd mine slaveh 0x910 8 (pos 0)

  -- The start time, the cycle of SYNC0, and what is in between, then the activation.
  abbrev pub set_start : S → ℕ → ℤ → ℕ → S
  set_start bus slaveh t cycl_time =
      reg.fpwr (reg.fpwr bus slaveh 0x990 8 t) slaveh 0x9a0 4 (int32 (pos cycl_time))

  abbrev pub activate : S → ℕ → ℕ → S
  activate bus slaveh ra = reg.fpwr bus slaveh 0x981 1 (pos ra)

  unfoldable pub dcsync0 : S × Array Slave → ℕ → Bool → ℕ → ℤ → S × Array Slave
  dcsync0 (bus, slaves) slave act cycl_time cycl_shift =
      let slaveh = (slaves slave).configadr in
      let (b1, t1) = stop_cyclic bus slaveh in
      let b2 = set_start b1 slaveh (start_time t1 cycl_time cycl_time cycl_shift) cycl_time in
      (activate b2 slaveh (if act then 3 else 0), sync_slave slaves slave act cycl_shift cycl_time)

  -- The registers that `ecx_dcsync01` leaves.
  unfoldable pub set_sync01 : S → ℕ → Bool → ℕ → ℕ → ℤ → S
  set_sync01 bus slaveh act cycl_time0 cycl_time1 cycl_shift =
      let (b1, t1) = stop_cyclic bus slaveh in
      let t = start_time t1 cycl_time0 (true_cycl_time cycl_time0 cycl_time1) cycl_shift in
      let b2 = set_start b1 slaveh t cycl_time0 in
      let b3 = reg.fpwr b2 slaveh 0x9a4 4 (int32 (pos cycl_time1)) in
      activate b3 slaveh (if act then 7 else 0)

  -- None where the code divides by 0.
  unfoldable pub dcsync01 : S × Array Slave → ℕ → Bool → ℕ → ℕ → ℤ → Option (S × Array Slave)
  unfolding set_sync01
  dcsync01 (bus, slaves) slave act cycl_time0 cycl_time1 cycl_shift =
      if cycl_time0 == 0 || true_cycl_time cycl_time0 cycl_time1 == 0
      then none
      else some (
        set_sync01 bus (slaves slave).configadr act cycl_time0 cycl_time1 cycl_shift,
        sync_slave slaves slave act cycl_shift cycl_time0,
      )
