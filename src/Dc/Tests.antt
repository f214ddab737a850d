-- ===== src/Dc/Tests.antt =====
-- Clocks on examples: three slaves in a row, the second without a distributed clock.
use ether_cat_master.Prelude.{
  ℕ, ◌+◌, ◌-◌, ◌%◌, ◌<◌, ◌≤◌, ◌≡◌, refl, ◌==◌, not, arith, true, if◌then◌else◌, some, [], ◌∷◌,
}
use ether_cat_master.Prelude.Int.{pos, negsuc, ◌+ℤ◌, ◌≤ℤ◌}
use ether_cat_master.Memory.{Array}
use ether_cat_master.Dc.{Slave, Group}
use ether_cat_master.Dc.Ports.{has_port, porttime, prevport, take_port}
use ether_cat_master.Dc.Sync.{sync_delay, true_cycl_time, dcsync01}
use ether_cat_master.Dc.Configure.{Configuring, configdc, entryport_of}
use ether_cat_master.Dc.Ring.{walk_back, prevport-walk_back, open_ports, take_port-open_ports}
use ether_cat_master.Dc.Chain.{dc_slaves, is_some, Chained, configdc-Chained}
use ether_cat_master.Dc.Trigger.{RegisterFile, file, dcsync01_lem}
use ether_cat_master.Dc.Entry.{entryport_of_lem}

abbrev in_row : Array Slave
in_row j = record {
  configadr = 4096 + j;
  hasdc = not (j == 2);
  topology = 2;
  activeports = 3;
  consumedports = 0;
  parent = j - 1;
  parentport = 0;
  entryport = 0;
  dc_rt_a = pos 100;
  dc_rt_b = pos 900;
  dc_rt_c = pos 0;
  dc_rt_d = pos 0;
  pdelay = pos 0;
  dc_next = 0;
  dc_previous = 0;
  dc_cycle = pos 0;
  dc_shift = pos 0;
  dc_active = 0;
  group = 0;
}

abbrev no_groups : Array Group
no_groups g = record { hasdc = true; dc_next = 7 }

abbrev clocks : RegisterFile
clocks slaveh reg = pos 123456789

first_and_third : dc_slaves 3 1 in_row ≡ (1 ∷ 3 ∷ [])
unfolding dc_slaves
first_and_third = refl

prevport-walk_back_example : prevport 11 1 ≡ walk_back 4 11 1
prevport-walk_back_example = prevport-walk_back 11 1 (omega arith)

take_port-open_ports_example :
    (open_ports 11 ≡ (if 11 % 16 == 0 then [] else (take_port 11).0 ∷ open_ports (take_port 11).1))
    × (11 % 16 ≡ 0 → ((take_port 11).0 ≡ 0) × ((take_port 11).1 ≡ 11))
take_port-open_ports_example = take_port-open_ports 11

entryport_of_lem_example :
    (has_port 3 (entryport_of 0 (in_row 1)) ≡ true)
    × (porttime (in_row 1) (entryport_of 0 (in_row 1)) ≤ℤ porttime (in_row 1) 1)
unfolding has_port
entryport_of_lem_example = entryport_of_lem 0 (in_row 1) 1 (omega arith) refl

dcsync01_lem_example :
    (done : RegisterFile × Array Slave) × (m : ℕ) × (dcsync01 file
        (clocks, in_row)
        1
        true
        1000000
        2000000
        (negsuc 99)
      ≡ some done)
    × (done.0 4097 0x990 ≡ pos m +ℤ negsuc 99)
    × (done.0 4097 0x981 ≡ pos 7)
    × (m % true_cycl_time 1000000 2000000 ≡ 0)
    × (123456789 + sync_delay < m)
    × (m ≤ 123456789 + sync_delay + true_cycl_time 1000000 2000000)
dcsync01_lem_example =
    dcsync01_lem clocks in_row 1 123456789 1000000 2000000 true (negsuc 99) refl (omega arith)
      (omega arith) (omega arith) (omega arith) (omega arith)

configdc-Chained_example :
    (c : Configuring RegisterFile) × (configdc file 0 0 3 clocks in_row no_groups (pos 0)
      ≡ some (c, is_some (dc_slaves 3 1 in_row)))
    × Chained c.slavelist 0 (dc_slaves 3 1 in_row)
configdc-Chained_example =
    configdc-Chained file 0 0 3 clocks in_row no_groups (pos 0) (λ j low high. omega arith)
