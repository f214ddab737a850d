-- ===== src/Config/Apart.antt =====
-- A group that is mapped and where LRW is blocked.
use ether_cat_master.Prelude.{ℕ, ◌+◌, ◌-◌, ◌<◌, ◌≤◌, ◌≡◌, refl, arith, ap, ◌∙◌, Bool, true, false}
use mathlib.Core.Path.{subst}
use ether_cat_master.Memory.{Array, Buffer}
use ether_cat_master.Nic.{Port}
use ether_cat_master.Master.Process.{IndexStack}
use ether_cat_master.Master.Process.Send.{ProcessGroup, send_processdata, all_bytes}
use ether_cat_master.Master.Process.Cover.{Tiles}
use ether_cat_master.Master.Process.Sizes.{segments_size}
use ether_cat_master.Master.Process.Sent.{send_processdata-Tiles_apart}
use ether_cat_master.Config.{
  Sizes, Layout, layout, map_slaves, map_bits, map_outputs, map_inputs, config_map, output_bytes,
  input_bytes, map_group, statuses_of,
}
use ether_cat_master.Config.Sums.{Holds, map_statuses-Holds, store_open_sum}
use ether_cat_master.Config.Behind.{
  Starts, map_slaves-Starts, map_bits-Starts, map_statuses-Starts, store_open_first,
  store_open-Starts,
}
use ether_cat_master.Config.Filled.{
  map_inputs-Holds, map_outputs-Fits, at_first-Fits, config_map-whole, config_map_lem, whole, ins,
}

module _ (s : Sizes) (old : Array ℕ) (none : statuses_of s.mailboxes ≡ 0)
    (small : (i : ℕ) → old i ≤ 1486) (room : (config_map s old).nsegments < 64) where
  abbrev out : Layout
  out = map_outputs s (layout old)

  nothing : (c : ℕ) → segments_size out.io_segment (c - c) c + out.segmentsize ≡ out.segmentsize
  unfolding segments_size
  nothing c =
      let none_left : 0 ≡ c - c = omega arith in
      subst (λ (n : ℕ). segments_size out.io_segment n c + out.segmentsize ≡ out.segmentsize)
        none_left (omega arith)

  out-Holds : Holds out.currentsegment out.segmentsize out
  out-Holds = record { begun = omega arith; adds_up = nothing out.currentsegment }

  ins-Holds : Holds out.currentsegment (out.segmentsize + input_bytes s) (ins s old)
  ins-Holds = map_inputs-Holds s out.currentsegment out.segmentsize out out-Holds

  whole-Holds : Holds out.currentsegment (out.segmentsize + input_bytes s) (whole s old)
  whole-Holds =
      let count = (config_map-whole s old).1 in
      subst (λ (n : ℕ). Holds out.currentsegment n (whole s old)) (omega (arith, none))
        (map_statuses-Holds s.mailboxes out.currentsegment (out.segmentsize + input_bytes s)
          (ins s old) (omega (arith, count, room)) ins-Holds)

  inputs_behind :
      segments_size
        (config_map s old).io_segment
        ((config_map s old).nsegments - out.currentsegment)
        out.currentsegment
      ≡ out.segmentsize + input_bytes s
  inputs_behind =
      let (io, count) = config_map-whole s old in
      rw (io, count)
        (store_open_sum out.currentsegment (out.segmentsize + input_bytes s) (whole s old)
          whole-Holds)

  below : out.currentsegment < (config_map s old).nsegments
  below = let h = whole-Holds.begun in omega (arith, (config_map-whole s old).1, h)

  out_size : (out.segmentsize ≤ out.segmentmaxsize) × (out.segmentsize ≤ 1486)
  out_size =
      let fits = map_outputs-Fits s old (layout old) (at_first-Fits s old small) in
      let size = fits.opened (omega (arith, below, room)) in (size, omega (arith, size, fits.most))

  out-Starts : Starts out.currentsegment out.segmentsize out
  out-Starts = record {
    begun = omega arith;
    opened = λ same. omega arith;
    fits = λ same. out_size.0;
    closed = λ behind. omega (arith, behind);
  }

  ins-Starts : Starts out.currentsegment out.segmentsize (ins s old)
  unfolding map_inputs
  ins-Starts =
      let c = out.currentsegment in
      let n = out.segmentsize in
      let h = out-Starts in
      let begun : Layout = record out { wkc = 0 } in
      let slaves : Layout = map_slaves s.inputs begun in
      store_open-Starts c n (map_bits false s.input_bits slaves) (
        map_bits-Starts c n s.input_bits slaves (
          map_slaves-Starts c n s.inputs begun
            (record { begun = h.begun; opened = h.opened; fits = h.fits; closed = h.closed })))

  first_inside : out.segmentsize ≤ (config_map s old).io_segment out.currentsegment
  first_inside =
      let io = ap (λ (a : Array ℕ). a out.currentsegment) (config_map-whole s old).0 in
      let first = store_open_first out.currentsegment out.segmentsize (whole s old) (
        map_statuses-Starts out.currentsegment out.segmentsize s.mailboxes (ins s old)
          ins-Starts) in
      omega (arith, io, first)

  config_map_first :
      ((config_map s old).isegment ≡ out.currentsegment)
      × ((config_map s old).ioffset ≡ out.segmentsize)
  unfolding config_map
  config_map_first = (refl, omega (arith, out_size.1))

  -- The first segment with inputs, and what is behind the outputs in it.
  pub config_map_inputs :
      ((config_map s old).isegment < (config_map s old).nsegments)
      × ((config_map s old).ioffset ≤ (config_map s old).io_segment (config_map s old).isegment)
      × (segments_size
            (config_map s old).io_segment
            ((config_map s old).nsegments - (config_map s old).isegment)
            (config_map s old).isegment
          ≡ input_bytes s + (config_map s old).ioffset)
  config_map_inputs =
      let (place, offset) = config_map_first in
      rw (place, offset) (below, first_inside, inputs_behind ∙ omega arith)

map_group_data :
    (s : Sizes) (old : Array ℕ) (g : ProcessGroup)
    → g.overlapped ≡ false
    → 0 < output_bytes s + input_bytes s
    → 0 < all_bytes (map_group s old g)
unfolding map_group
map_group_data s old g apart much = ground (arith, apart, much)

-- The segments that `ecx_main_config_map_group` lays out for a group in which no slave has a mailbox
-- status, with `isegment` and `ioffset`, are what `ecx_send_processdata_group` needs where LRW is blocked:
-- if the IO map does not overlap, the group has process data, the mapping took at most 8 segments, no
-- older entry of the list is longer than a frame can take, and the index stack is empty, the segments
-- that are pushed first lie one behind the other in the place of the inputs and are all of them, and
-- those behind are in the same way all of the outputs, from the start of the IO map.
pub send_processdata-map_group_apart :
    (s : Sizes) (old : Array ℕ) (g : ProcessGroup) (iomap dctime : Buffer) (taken : ℕ → Bool × Bool)
    (port : Port) (idxstack : IndexStack)
    → statuses_of s.mailboxes ≡ 0
    → ((i : ℕ) → old i ≤ 1486)
    → g.overlapped ≡ false
    → g.block_lrw ≡ true
    → 0 < output_bytes s + input_bytes s
    → (config_map s old).nsegments ≤ 8
    → idxstack.pushed ≡ 0
    → (k : ℕ) × (k
        ≤ (send_processdata (map_group s old g) iomap dctime taken port idxstack).2.pushed)
      × Tiles k
          (send_processdata (map_group s old g) iomap dctime taken port idxstack).2
          0
          (output_bytes s)
          (input_bytes s)
      × Tiles
          ((send_processdata (map_group s old g) iomap dctime taken port idxstack).2.pushed - k)
          (send_processdata (map_group s old g) iomap dctime taken port idxstack).2
          k
          0
          (output_bytes s)
unfolding map_group
send_processdata-map_group_apart s old g iomap dctime taken port idxstack none small apart blocked
      much few clear =
    let room : (config_map s old).nsegments < 64 = omega (arith, few) in
    let (fills, bounds) = config_map_lem s old small room in
    let (least, inside, ins) = config_map_inputs s old none small room in
    send_processdata-Tiles_apart (map_group s old g) iomap dctime taken port idxstack
      (λ i. omega (arith, bounds i)) clear blocked (map_group_data s old g apart much) least
      (omega (arith, few)) inside ins (omega (arith, fills))
