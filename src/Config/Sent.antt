-- ===== src/Config/Sent.antt =====
-- A group that is mapped and the process data that are sent for it.
use ether_cat_master.Prelude.{
  ℕ, ◌+◌, ◌<◌, ◌≤◌, ◌≡◌, refl, arith, ap, ◌∙◌, sym, if◌then◌else◌, ltb, Bool, false,
}
use mathlib.Core.Path.{subst}
use ether_cat_master.Memory.{Array, Buffer}
use ether_cat_master.Nic.{Port}
use ether_cat_master.Master.Process.{IndexStack}
use ether_cat_master.Master.Process.Send.{ProcessGroup, send_processdata, all_bytes, input_shift}
use ether_cat_master.Master.Process.Cover.{Tiles}
use ether_cat_master.Master.Process.Sizes.{segments_size, Tiles-move}
use ether_cat_master.Master.Process.Sent.{send_processdata-Tiles}
use ether_cat_master.Config.{Sizes, config_map, statuses_of, output_bytes, input_bytes, map_group}
use ether_cat_master.Config.Filled.{config_map_lem}

abbrev process_bytes : Sizes → ℕ
process_bytes s = output_bytes s + input_bytes s + statuses_of s.mailboxes

map_group_bytes :
    (s : Sizes) (old : Array ℕ) (g : ProcessGroup)
    → g.logstartaddr ≡ 0
    → g.overlapped ≡ false
    → (all_bytes (map_group s old g) ≡ process_bytes s) × (input_shift (map_group s old g) ≡ 0)
unfolding map_group
map_group_bytes s old g first apart = (ground (arith, first, apart), ground (arith, apart))

map_group_segments :
    (s : Sizes) (old : Array ℕ) (g : ProcessGroup)
    → ((map_group s old g).io_segment ≡ (config_map s old).io_segment)
      × ((map_group s old g).nsegments ≡ (config_map s old).nsegments)
      × ((map_group s old g).block_lrw ≡ g.block_lrw)
unfolding map_group
map_group_segments s old g = (refl, refl, refl)

map_group_filled :
    (s : Sizes) (old : Array ℕ) (g : ProcessGroup)
    → segments_size (map_group s old g).io_segment (map_group s old g).nsegments 0
      ≡ segments_size (config_map s old).io_segment (config_map s old).nsegments 0
unfolding map_group
map_group_filled s old g = refl

map_group_place :
    (s : Sizes) (old : Array ℕ) (g : ProcessGroup)
    → (if ltb 0 (map_group s old g).obytes
        then (map_group s old g).outputs
        else (map_group s old g).inputs)
      ≡ 0
unfolding map_group
map_group_place s old g = ground arith

config_map_used : (s : Sizes) (old : Array ℕ) → 0 < (config_map s old).nsegments
unfolding config_map
config_map_used s old = omega arith

-- The segments that `ecx_main_config_map_group` lays out for group 0 (its logical address is 0) are what
-- `ecx_send_processdata_group` needs: where LRW is allowed, the IO map does not overlap, the group has
-- process data, the mapping took at most 16 segments, no older entry of the list is longer than a frame
-- can take, and the index stack is empty, the segments that are pushed lie one behind the other from the
-- start of the IO map, and are all of the outputs, the inputs and the mailbox status.
pub send_processdata-map_group :
    (s : Sizes) (old : Array ℕ) (g : ProcessGroup) (iomap dctime : Buffer) (taken : ℕ → Bool × Bool)
    (port : Port) (idxstack : IndexStack)
    → ((i : ℕ) → old i ≤ 1486)
    → g.logstartaddr ≡ 0
    → g.overlapped ≡ false
    → g.block_lrw ≡ false
    → 0 < output_bytes s + input_bytes s + statuses_of s.mailboxes
    → (config_map s old).nsegments ≤ 16
    → idxstack.pushed ≡ 0
    → Tiles
        (send_processdata (map_group s old g) iomap dctime taken port idxstack).2.pushed
        (send_processdata (map_group s old g) iomap dctime taken port idxstack).2
        0
        0
        (output_bytes s + input_bytes s + statuses_of s.mailboxes)
send_processdata-map_group s old g iomap dctime taken port idxstack small first apart lrw much few
      clear =
    let (fills, bounds) = config_map_lem s old small (omega (arith, few)) in
    let (bytes, shift) = map_group_bytes s old g first apart in
    let (io, count, blocked) = map_group_segments s old g in
    let place = map_group_place s old g in
    let r : IndexStack =
      (send_processdata (map_group s old g) iomap dctime taken port idxstack).2 in
    subst (λ (n : ℕ). Tiles r.pushed r 0 0 n) bytes
      (Tiles-move r.pushed r.pushed 0 0 _ 0 (all_bytes (map_group s old g)) r refl refl
        (omega (arith, place, shift))
        (send_processdata-Tiles (map_group s old g) iomap dctime taken port idxstack
          (λ i. omega (arith, bounds i, ap (λ (a : Array ℕ). a i) io)) clear (blocked ∙ lrw)
          (omega (arith, bytes, much)) (omega (arith, count, config_map_used s old))
          (omega (arith, count, few)) (map_group_filled s old g ∙ fills ∙ sym bytes)))
