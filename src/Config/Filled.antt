-- ===== src/Config/Filled.antt =====
-- The segments of a group and its process data.
use ether_cat_master.Prelude.{ℕ, ◌+◌, ◌-◌, ◌<◌, ◌≤◌, ◌≡◌, refl, arith, ap, true, false}
use mathlib.Core.Path.{subst}
use ether_cat_master.Memory.{Array}
use ether_cat_master.Master.Process.Sizes.{segments_size}
use ether_cat_master.Config.{
  Sizes, Layout, layout, map_slaves, map_bits, map_statuses, store_open, map_outputs, map_inputs,
  map_all, config_map, bytes_of, byte_of, statuses_of, output_bytes, input_bytes,
}
use ether_cat_master.Config.Sums.{
  Holds, map_slaves-Holds, map_bits-Holds, map_statuses-Holds, map_statuses_grows, store_open-Holds,
  store_open_sum,
}
use ether_cat_master.Config.Bounds.{
  Fits, map_slaves-Fits, map_bits-Fits, map_statuses-Fits, store_open-Fits,
}

module _ (s : Sizes) (start total : ℕ) (l : Layout) where
  map_outputs-Holds : Holds start total l → Holds start (total + output_bytes s) (map_outputs s l)
  unfolding map_outputs output_bytes
  map_outputs-Holds h =
      subst (λ (n : ℕ). Holds start n (map_outputs s l)) (omega arith)
        (map_bits-Holds true s.output_bits start (total + bytes_of s.outputs)
          (map_slaves s.outputs l) (map_slaves-Holds s.outputs start total l h))

  pub map_inputs-Holds : Holds start total l → Holds start (total + input_bytes s) (map_inputs s l)
  unfolding map_inputs input_bytes
  map_inputs-Holds h =
      let begun : Layout = record l { wkc = 0 } in
      let slaves : Layout = map_slaves s.inputs begun in
      subst (λ (n : ℕ). Holds start n (map_inputs s l)) (omega arith)
        (store_open-Holds start (total + bytes_of s.inputs + byte_of s.input_bits)
          (map_bits false s.input_bits slaves)
          (map_bits-Holds false s.input_bits start (total + bytes_of s.inputs) slaves (
            map_slaves-Holds s.inputs start total begun
              (record { begun = h.begun; adds_up = h.adds_up }))))

module _ (s : Sizes) (old : Array ℕ) where
  abbrev pub ins : Layout
  ins = map_inputs s (map_outputs s (layout old))

  abbrev pub whole : Layout
  whole = map_statuses s.mailboxes ins

  abbrev process_bytes : ℕ
  process_bytes = output_bytes s + input_bytes s + statuses_of s.mailboxes

  at_first-Holds : Holds 0 0 (layout old)
  unfolding segments_size
  at_first-Holds = record { begun = omega arith; adds_up = refl }

  whole-Holds : whole.currentsegment < 63 → Holds 0 process_bytes whole
  whole-Holds room = map_statuses-Holds s.mailboxes 0 (output_bytes s + input_bytes s) ins room (
      map_inputs-Holds s 0 (output_bytes s) (map_outputs s (layout old)) (
        subst (λ (n : ℕ). Holds 0 n (map_outputs s (layout old))) (omega arith)
          (map_outputs-Holds s 0 0 (layout old) at_first-Holds)))

  pub at_first-Fits : ((i : ℕ) → old i ≤ 1486) → Fits (layout old)
  at_first-Fits small = record {
    closed = small;
    least = omega arith;
    most = omega arith;
    opened = λ below. omega arith;
  }

  pub map_outputs-Fits : (l : Layout) → Fits l → Fits (map_outputs s l)
  unfolding map_outputs
  map_outputs-Fits l h =
      map_bits-Fits true s.output_bits (map_slaves s.outputs l) (map_slaves-Fits s.outputs l h)

  map_inputs-Fits :
      (l : Layout) → (map_inputs s l).currentsegment < 64 → Fits l → Fits (map_inputs s l)
  unfolding map_inputs store_open
  map_inputs-Fits l room h =
      store_open-Fits (map_bits false s.input_bits (map_slaves s.inputs (record l { wkc = 0 })))
        room
        (map_bits-Fits false s.input_bits _ (
          map_slaves-Fits s.inputs (record l { wkc = 0 })
            (record { closed = h.closed; least = h.least; most = h.most; opened = h.opened })))

  pub whole-Fits : ((i : ℕ) → old i ≤ 1486) → whole.currentsegment < 63 → Fits whole
  whole-Fits small room = map_statuses-Fits s.mailboxes ins room (
      map_inputs-Fits (map_outputs s (layout old))
        (omega (arith, room, map_statuses_grows s.mailboxes ins))
        (map_outputs-Fits (layout old) (at_first-Fits small)))

  map_all-whole : map_all s (layout old) ≡ store_open whole
  unfolding map_all
  map_all-whole = refl

  pub config_map-whole :
      ((config_map s old).io_segment ≡ (store_open whole).io_segment)
      × ((config_map s old).nsegments ≡ whole.currentsegment + 1)
  unfolding config_map store_open
  config_map-whole = (
    ap (λ (l : Layout). l.io_segment) map_all-whole,
    ap (λ (l : Layout). l.currentsegment + 1) map_all-whole,
  )

  -- If fewer than 64 segments are used, they are together as long as the outputs, the inputs and the
  -- mailbox status, and no entry of the list is longer than a frame can take (1486 bytes), if none was
  -- before.
  pub config_map_lem :
      ((i : ℕ) → old i ≤ 1486)
      → (config_map s old).nsegments < 64
      → (segments_size (config_map s old).io_segment (config_map s old).nsegments 0
          ≡ output_bytes s + input_bytes s + statuses_of s.mailboxes)
        × ((i : ℕ) → (config_map s old).io_segment i ≤ 1486)
  config_map_lem small room =
      let (io, count) = config_map-whole in
      let first : whole.currentsegment + 1 - 0 ≡ whole.currentsegment + 1 = omega arith in
      let sum =
        subst (λ (n : ℕ). segments_size (store_open whole).io_segment n 0 ≡ process_bytes) first
          (store_open_sum 0 process_bytes whole (whole-Holds (omega (arith, room, count)))) in
      let fits =
        store_open-Fits whole (omega (arith, room, count))
          (whole-Fits small (omega (arith, room, count))) in
      rw (io, count) (sum, fits.closed)
