-- ===== src/Dc/Configure.antt =====
-- `ecx_configdc`: the list of slaves with distributed clocks, their entry ports and delays.
use ether_cat_master.Prelude.{
  ℕ, zero, suc, ◌+◌, ◌-◌, ◌*◌, ◌%◌, ◌==◌, ltb, Bool, true, false, not, ◌&&◌, ◌||◌, if◌then◌else◌,
  Option, none, some, List, [], ◌∷◌, ◌>>=◌,
}
use ether_cat_master.Prelude.Int.{ℤ, pos, ◌+ℤ◌, ◌-ℤ◌, ltb_ℤ}
use ether_cat_master.Memory.{Array, update}
use ether_cat_master.Dc.{Slave, Group, Registers, modify, int32, int64, quot, negated}
use ether_cat_master.Dc.Ports.{has_port, without_port, porttime, prevport, parentport}

-- The variables of the loop, with the lists and what stands behind the registers.
pub record Configuring (S : Type 0) : Type 0 where
  pub bus : S
  pub slavelist : Array Slave
  pub grouplist : Array Group
  pub parenthold : ℕ
  pub prev_dc_slave : ℕ
  pub ht : ℤ
  pub hrt : ℤ

-- `mastertime64`: nanoseconds since 2000-01-01 in 64 bits.
unfoldable pub mastertime64 : ℕ → ℕ → ℕ
mastertime64 tv_sec tv_nsec =
    ((tv_sec + 18446744073709551616 - 946684800) % 18446744073709551616 * 1000000000 + tv_nsec)
    % 18446744073709551616

-- The active ports with their time stamps, in the order 0, 3, 1, 2.
abbrev pub listed : Slave → ℕ → List (ℕ × ℤ) → List (ℕ × ℤ)
listed s port rest = if has_port s.activeports port then (port, porttime s port) ∷ rest else rest

unfoldable pub port_list : Slave → List (ℕ × ℤ)
unfolding has_port porttime
port_list s = listed s 0 (listed s 3 (listed s 1 (listed s 2 [])))

-- The later port if its time is lower.
abbrev pub lower : ℕ × ℤ → ℕ × ℤ → ℕ × ℤ
lower best other = if ltb_ℤ other.1 best.1 then other else best

unfoldable pub lowest : ℕ × ℤ → List (ℕ × ℤ) → ℕ × ℤ
lowest best [] = best
lowest best (p ∷ rest) = lowest (lower best p) rest

-- The port with the lowest time stamp. With no active port `plist[0]` is not initialised; `stale` is
-- what is there.
abbrev pub entry_of : ℕ → List (ℕ × ℤ) → ℕ
entry_of stale [] = stale
entry_of stale (p ∷ rest) = (lowest p rest).0

unfoldable pub entryport_of : ℕ → Slave → ℕ
unfolding port_list
entryport_of stale s = entry_of stale (port_list s)

-- The parent with distributed clocks, or 0, and its child on the way. None when the search is not done.
unfoldable pub dc_parent : ℕ → Array Slave → ℕ → Option (ℕ × ℕ)
dc_parent zero slaves at = none
dc_parent (suc steps) slaves at =
    let parent = (slaves at).parent in
    let rest = dc_parent steps slaves parent in
    if parent == 0 || (slaves parent).hasdc then some (parent, at) else rest

-- `pdelay`, from the ports of the slave and of its parent.
unfoldable pub delay : Slave → Slave → ℕ → ℕ → ℤ
unfolding ◌-ℤ◌ ◌+ℤ◌ porttime prevport
delay s up child parent =
    let before = porttime up (prevport up.activeports s.parentport) in
    let dt3 = int32 (porttime up s.parentport -ℤ before) in
    let dt1 : ℤ =
      if ltb 1 s.topology
      then int32 (porttime s (prevport s.activeports s.entryport) -ℤ porttime s s.entryport)
      else pos 0 in
    let dt1' : ℤ = if ltb_ℤ dt3 dt1 then int32 (negated dt1) else dt1 in
    let dt2 : ℤ =
      if ltb (parent + 1) child then int32 (before -ℤ porttime up up.entryport) else pos 0 in
    let dt2' : ℤ = if ltb_ℤ dt2 (pos 0) then int32 (negated dt2) else dt2 in
    int32 (quot (int32 (dt3 -ℤ dt1')) 2 +ℤ dt2' +ℤ up.pdelay)

-- The list of slaves with distributed clocks goes on with slave `i`.
unfoldable pub link_slave : ℕ → Array Slave → ℕ → Array Slave
unfolding modify
link_slave i slaves prev =
    if not (slaves 0).hasdc
    then modify (modify slaves 0 (λ s. record s { hasdc = true; dc_next = i })) i
        (λ s. record s { dc_previous = 0 })
    else modify (modify slaves prev (λ s. record s { dc_next = i })) i
        (λ s. record s { dc_previous = prev })

unfoldable pub link_group : ℕ → Array Slave → Array Group → Array Group
unfolding update
link_group i slaves groups =
    if not (slaves 0).hasdc
    then update groups (slaves i).group (record { hasdc = true; dc_next = i })
    else groups

-- `consumedports = activeports`
unfoldable pub open_slave : ℕ → Array Slave → Array Slave
unfolding modify
open_slave i slaves = modify slaves i (λ s. record s { consumedports = s.activeports })

-- The slave has no distributed clock: the time stamps are cleared, and a branch without such slaves
-- takes a port of the slave where it begins.
unfoldable pub clear_times : ℕ → Array Slave → Array Slave
unfolding modify
clear_times i slaves =
    modify slaves i
      (λ s. record s { dc_rt_a = pos 0; dc_rt_b = pos 0; dc_rt_c = pos 0; dc_rt_d = pos 0 })

abbrev pub held_parent : ℕ → Array Slave → ℕ → ℕ
held_parent i slaves parenthold =
    let parent = (slaves i).parent in
    if ltb 0 parent && ltb 2 (slaves parent).topology then parent else parenthold

unfoldable pub skip_slave : {S : Type 0} → ℕ → Configuring S → Configuring S
unfolding clear_times parentport
skip_slave i c =
    let slaves = clear_times i c.slavelist in
    let hold = held_parent i slaves c.parenthold in
    if not (hold == 0) && ((slaves i).topology == 1)
    then record c { slavelist = (parentport slaves hold).0; parenthold = 0 }
    else record c { slavelist = slaves; parenthold = hold }

-- The port of the parent that the slave is connected to.
unfoldable pub connect : ℕ → ℕ → Array Slave → Array Slave
unfolding modify parentport
connect i parent slaves =
    let (opened, port) = parentport slaves parent in
    modify opened i (λ s. record s {
      parentport = if (opened parent).topology == 1 then (opened parent).entryport else port;
    })

-- `master` is `mastertime64`; `stale` is what `plist[0]` holds before it is set.
module _ {S : Type 0} (reg : Registers S) (master stale : ℕ) where
  -- The time stamps are read, and the offset to the time of the master is written.
  unfoldable pub read_times : ℕ → Configuring S → Configuring S
  unfolding ◌+ℤ◌ modify
  read_times i c =
      let slaveh = (c.slavelist i).configadr in
      let (b1, ta) = reg.fprd c.bus slaveh 0x900 4 c.ht in
      let (b2, sof) = reg.fprd b1 slaveh 0x918 8 c.hrt in
      let hrt = int64 (negated sof +ℤ pos master) in
      let b3 = reg.fpwr b2 slaveh 0x920 8 hrt in
      let (b4, tb) = reg.fprd b3 slaveh 0x904 4 ta in
      let (b5, tc) = reg.fprd b4 slaveh 0x908 4 tb in
      let (b6, td) = reg.fprd b5 slaveh 0x90c 4 tc in
      record c {
        bus = b6;
        ht = td;
        hrt = hrt;
        slavelist =
            modify c.slavelist i
              (λ s. record s { dc_rt_a = ta; dc_rt_b = tb; dc_rt_c = tc; dc_rt_d = td });
      }

  -- The entry port, which is consumed.
  unfoldable pub enter : ℕ → Array Slave → Array Slave
  unfolding modify entryport_of without_port
  enter i slaves = modify slaves i (λ s. record s {
    entryport = entryport_of stale s;
    consumedports = without_port s.consumedports (entryport_of stale s);
  })

  -- The delay of a slave that has a parent with distributed clocks.
  unfoldable pub measure : ℕ → ℕ → ℕ → Configuring S → Configuring S
  unfolding connect modify delay
  measure i parent child c =
      let slaves = connect i parent c.slavelist in
      let pdelay = delay (slaves i) (slaves parent) child parent in
      record c {
        bus = reg.fpwr c.bus (slaves i).configadr 0x928 4 pdelay;
        ht = pdelay;
        slavelist = modify slaves i (λ s. record s { pdelay = pdelay });
      }

  abbrev pub measure_from : ℕ → ℕ × ℕ → Configuring S → Configuring S
  measure_from i (parent, child) c = if ltb 0 parent then measure i parent child c else c

  -- A slave with a distributed clock, up to the search for its parent.
  abbrev pub linked : ℕ → Configuring S → Configuring S
  linked i c = record c {
    slavelist = link_slave i c.slavelist c.prev_dc_slave;
    grouplist = link_group i c.slavelist c.grouplist;
    parenthold = 0;
    prev_dc_slave = i;
  }

  unfoldable pub enter_slave : ℕ → Configuring S → Configuring S
  unfolding link_slave link_group read_times enter
  enter_slave i c =
      let read = read_times i (linked i c) in record read { slavelist = enter i read.slavelist }

  unfoldable pub clock_slave : ℕ → Configuring S → Option (Configuring S)
  unfolding enter_slave dc_parent measure
  clock_slave i c = do
    found ← dc_parent i (enter_slave i c).slavelist i
    some (measure_from i found (enter_slave i c))

  abbrev pub opened : ℕ → Configuring S → Configuring S
  opened i c = record c { slavelist = open_slave i c.slavelist }

  -- One round of the loop. The parents of a slave stand in front of it, so that its own number is
  -- enough for the search.
  unfoldable pub configure_slave : ℕ → Configuring S → Option (Configuring S)
  unfolding open_slave clock_slave skip_slave
  configure_slave i c =
      if (c.slavelist i).hasdc then clock_slave i (opened i c) else some (skip_slave i (opened i c))

  -- `count` rounds, from slave `i` on.
  unfoldable pub configure_slaves : ℕ → ℕ → Configuring S → Option (Configuring S)
  configure_slaves zero i c = some c
  configure_slaves (suc count) i c = do c' ← configure_slave i c; configure_slaves count (suc i) c'

  -- What stands in front of the loop.
  abbrev pub configuring : S → Array Slave → Array Group → ℤ → Configuring S
  configuring bus slaves groups hrt = record {
    bus = reg.bwr bus 0x900 4 (pos 0);
    slavelist = modify slaves 0 (λ s. record s { hasdc = false });
    grouplist = update groups 0 (record { hasdc = false; dc_next = (groups 0).dc_next });
    parenthold = 0;
    prev_dc_slave = 0;
    ht = pos 0;
    hrt = hrt;
  }

  -- `slavelist[0].hasdc` is the result.
  unfoldable pub configdc : ℕ → S → Array Slave → Array Group → ℤ → Option (Configuring S × Bool)
  unfolding modify update
  configdc slavecount bus slaves groups hrt = do
    c ← configure_slaves slavecount 1 (configuring bus slaves groups hrt)
    some (c, (c.slavelist 0).hasdc)
