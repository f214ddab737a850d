-- ===== src/Master/Process/Sent.antt =====
-- Which bytes `ecx_send_processdata_group` sends.
use ether_cat_master.Prelude.{
  ℕ, suc, ◌+◌, ◌-◌, ◌<◌, ◌≤◌, ◌≡◌, refl, ap, ◌∙◌, sym, arith, inl, inr, Bool-cases, ltb, Bool, true,
  false, if◌then◌else◌, ◌%◌,
}
use mathlib.Core.Path.{subst}
use ether_cat_master.Prelude.Int.{pos}
use ether_cat_master.Memory.{Buffer}
use ether_cat_master.Nic.{Port}
use ether_cat_master.Master.Process.{IndexStack}
use ether_cat_master.Master.Process.Send.{
  ProcessGroup, Sending, send_datagrams, both_loop, read_loop, write_loop, others, all_bytes,
  input_shift, at_start, send_inputs, send_outputs, send_both, send_frames, send_processdata,
  clearmbxstatus,
}
use ether_cat_master.Master.Process.Cover.{
  Tiles, Extends, Extends-refl, loop_pushed, loop-Covers, loop-Extends,
}
use ether_cat_master.Master.Process.Sizes.{
  segments_size, Tiles-kept, Tiles-move, both-Fills, read_first-Fills, write-Fills,
}

module _ (g : ProcessGroup) (iomap dctime : Buffer) (taken : ℕ → Bool × Bool) (port : Port)
    (idxstack : IndexStack) (small : (i : ℕ) → g.io_segment i < 65536)
    (cleared : idxstack.pushed ≡ 0) where
  -- The stack after the call.
  abbrev sent : IndexStack
  sent = (send_processdata g iomap dctime taken port idxstack).2

  abbrev clean : Buffer
  clean = (clearmbxstatus g iomap).0

  -- The place of the process data that are sent.
  abbrev place : ℕ
  place = if ltb 0 g.obytes then g.outputs else g.inputs

  sent_both :
      g.block_lrw ≡ false
      → 0 < all_bytes g
      → sent ≡ (send_both g clean dctime taken port idxstack).idxstack
  unfolding send_processdata send_frames
  sent_both lrw much = ground arith

  sent_apart :
      g.block_lrw ≡ true
      → 0 < all_bytes g
      → sent
        ≡ (send_outputs g clean dctime taken
            (send_inputs g clean dctime taken port idxstack)).idxstack
  unfolding send_processdata send_frames
  sent_apart blocked much = ground arith

  -- Where LRW is allowed, there are process data, the index stack is empty, there are 1 to 16 segments,
  -- each below 64 KiB, and together they are as long as the process data: the segments that are pushed
  -- lie one behind the other from the place where the inputs of an answer belong, and are all of the
  -- process data.
  pub send_processdata-Tiles :
      g.block_lrw ≡ false
      → 0 < all_bytes g
      → 0 < g.nsegments
      → g.nsegments ≤ 16
      → segments_size g.io_segment g.nsegments 0 ≡ all_bytes g
      → Tiles sent.pushed sent 0 (place + input_shift g) (all_bytes g)
  send_processdata-Tiles lrw much least most e =
      let s = at_start g port idxstack g.logstartaddr 0 (all_bytes g) place in
      let count : suc (others g 0) ≡ g.nsegments = omega arith in
      let fills =
        both-Fills g small (input_shift g) (others g 0) 0 (all_bytes g)
          (ap (λ (n : ℕ). segments_size g.io_segment n 0) count ∙ e) in
      let all =
        loop-Covers g clean dctime taken (both_loop g (input_shift g)) (others g 0) s (all_bytes g)
          (omega arith) refl fills in
      let r = send_datagrams g clean dctime taken (others g 0) (both_loop g (input_shift g)) s in
      subst (λ (r : IndexStack). Tiles r.pushed r 0 (place + input_shift g) (all_bytes g))
        (sym (sent_both lrw much))
        (Tiles-move (r.idxstack.pushed - idxstack.pushed) r.idxstack.pushed idxstack.pushed 0
          (place + input_shift g) (place + input_shift g) (all_bytes g) r.idxstack (omega arith)
          cleared refl all)

  -- Before the inputs, and on the way to the outputs.
  abbrev begun : Sending
  begun =
      at_start g port idxstack ((g.logstartaddr + g.obytes) % 4294967296) g.isegment g.ibytes
        g.inputs

  abbrev with_inputs : Sending
  with_inputs = send_datagrams g clean dctime taken (others g g.isegment) (read_loop g) begun

  abbrev half : Sending
  half = send_inputs g clean dctime taken port idxstack

  half_none : ltb 0 g.ibytes ≡ false → half ≡ begun
  half_none none = rw none refl

  half_some : ltb 0 g.ibytes ≡ true → half ≡ with_inputs
  half_some some = rw some refl

  none-Tiles :
      (r : IndexStack) (start total : ℕ) → r.pushed ≡ 0 → total ≡ 0 → Tiles r.pushed r 0 start total
  unfolding Tiles
  none-Tiles r start total e none = rw e none

  half-Tiles :
      g.isegment < g.nsegments
      → g.nsegments ≤ 16
      → g.ioffset ≤ g.io_segment g.isegment
      → segments_size g.io_segment (g.nsegments - g.isegment) g.isegment ≡ g.ibytes + g.ioffset
      → Tiles half.idxstack.pushed half.idxstack 0 g.inputs g.ibytes
  half-Tiles least most inside e = elim (Bool-cases (ltb 0 g.ibytes)) [
    | inl some ↦
        let count : suc (others g g.isegment) ≡ g.nsegments - g.isegment = omega arith in
        let fills =
          read_first-Fills g small (others g g.isegment) g.ibytes inside
            (ap (λ (n : ℕ). segments_size g.io_segment n g.isegment) count ∙ e) in
        let all =
          loop-Covers g clean dctime taken (read_loop g) (others g g.isegment) begun g.ibytes
            (omega arith) refl fills in
        subst (λ (s : Sending). Tiles s.idxstack.pushed s.idxstack 0 g.inputs g.ibytes)
          (sym (half_some some))
          (Tiles-move (with_inputs.idxstack.pushed - idxstack.pushed) with_inputs.idxstack.pushed
            idxstack.pushed 0 (g.inputs + 0) g.inputs g.ibytes with_inputs.idxstack (omega arith)
            cleared (omega arith) all)
    | inr none ↦
        subst (λ (s : Sending). Tiles s.idxstack.pushed s.idxstack 0 g.inputs g.ibytes)
          (sym (half_none none))
          (none-Tiles idxstack g.inputs g.ibytes cleared (ground (arith, none)))
  ]

  half_pushed : g.isegment < g.nsegments → half.idxstack.pushed ≤ g.nsegments - g.isegment
  half_pushed least =
      let all = loop_pushed g clean dctime taken (read_loop g) (others g g.isegment) begun in
      ground arith

  abbrev turned : Sending
  turned = record half {
    log_adr = g.logstartaddr;
    currentsegment = 0;
    left = pos g.obytes;
    segment = g.outputs;
  }

  abbrev with_outputs : Sending
  with_outputs = send_datagrams g clean dctime taken (others g 0) (write_loop g) turned

  abbrev whole_data : Sending
  whole_data = send_outputs g clean dctime taken half

  whole_none : ltb 0 g.obytes ≡ false → whole_data ≡ half
  whole_none none = rw none refl

  whole_some : ltb 0 g.obytes ≡ true → whole_data ≡ with_outputs
  whole_some some = rw some refl

  whole-Extends : Extends half.idxstack whole_data.idxstack
  whole-Extends = elim (Bool-cases (ltb 0 g.obytes)) [
    | inl some ↦
        subst (λ (s : Sending). Extends half.idxstack s.idxstack) (sym (whole_some some))
          (loop-Extends g clean dctime taken (write_loop g) (others g 0) turned)
    | inr none ↦
        subst (λ (s : Sending). Extends half.idxstack s.idxstack) (sym (whole_none none))
          (Extends-refl half.idxstack)
  ]

  -- The outputs, from the place where the inputs end.
  abbrev Outputs : Sending → Type 0
  Outputs s =
      Tiles (s.idxstack.pushed - half.idxstack.pushed) s.idxstack half.idxstack.pushed g.outputs
        g.obytes

  whole-Tiles :
      g.isegment < g.nsegments
      → g.nsegments + (g.nsegments - g.isegment) ≤ 16
      → g.obytes ≤ segments_size g.io_segment g.nsegments 0
      → Outputs whole_data
  unfolding Tiles
  whole-Tiles least most e = elim (Bool-cases (ltb 0 g.obytes)) [
    | inl some ↦
        let count : suc (others g 0) ≡ g.nsegments = omega arith in
        let fills =
          write-Fills g small (others g 0) 0 g.obytes
            (subst (λ (n : ℕ). g.obytes ≤ segments_size g.io_segment n 0) (sym count) e) in
        let all =
          loop-Covers g clean dctime taken (write_loop g) (others g 0) turned g.obytes
            (omega (arith, half_pushed least)) refl fills in
        subst Outputs (sym (whole_some some)) (
          Tiles-move _ _ _ _ (g.outputs + 0) g.outputs g.obytes with_outputs.idxstack refl refl
            (omega arith) all)
    | inr none ↦ subst Outputs (sym (whole_none none)) (
        Tiles-move 0 (half.idxstack.pushed - half.idxstack.pushed) half.idxstack.pushed
          half.idxstack.pushed g.outputs g.outputs g.obytes half.idxstack (omega arith) refl refl
          (ground (arith, none)))
  ]

  -- Where LRW is blocked, there are process data, the index stack is empty and has room for all
  -- segments, each segment is below 64 KiB, those of the inputs begin with the rest of segment
  -- `isegment` behind `ioffset` and are as long as the inputs, and the outputs fit in the segments: the
  -- segments that are pushed first lie one behind the other and are all of the inputs, and those
  -- behind are in the same way all of the outputs.
  pub send_processdata-Tiles_apart :
      g.block_lrw ≡ true
      → 0 < all_bytes g
      → g.isegment < g.nsegments
      → g.nsegments + (g.nsegments - g.isegment) ≤ 16
      → g.ioffset ≤ g.io_segment g.isegment
      → segments_size g.io_segment (g.nsegments - g.isegment) g.isegment ≡ g.ibytes + g.ioffset
      → g.obytes ≤ segments_size g.io_segment g.nsegments 0
      → (k : ℕ) × (k ≤ sent.pushed)
        × Tiles k sent 0 g.inputs g.ibytes
        × Tiles (sent.pushed - k) sent k g.outputs g.obytes
  send_processdata-Tiles_apart blocked much least most inside ins outs =
      subst
        (λ (r : IndexStack).
          (k : ℕ) × (k ≤ r.pushed)
          × Tiles k r 0 g.inputs g.ibytes
          × Tiles (r.pushed - k) r k g.outputs g.obytes)
        (sym (sent_apart blocked much))
        (
          half.idxstack.pushed,
          whole-Extends.0,
          Tiles-kept half.idxstack.pushed 0 g.inputs g.ibytes half.idxstack whole_data.idxstack
              (omega arith) whole-Extends (half-Tiles least (omega arith) inside ins),
          whole-Tiles least most outs,
        )
