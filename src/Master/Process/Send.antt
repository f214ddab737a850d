-- ===== src/Master/Process/Send.antt =====
-- The process data go out: `ecx_send_processdata_group`.
use ether_cat_master.Prelude.{
  ℕ, zero, suc, ◌+◌, ◌-◌, ◌/◌, ◌%◌, ◌==◌, ltb, Bool, false, ◌&&◌, if◌then◌else◌, Option, none, some,
}
use ether_cat_master.Prelude.Int.{ℤ, pos, ◌-ℤ◌, ltb_ℤ, eqb_ℤ, pos_part}
use ether_cat_master.Memory.{Array, Buffer, update, copy, from, zeros}
use ether_cat_master.Frame.{Command, lrd, lrw, lwr, frmw, setup_datagram, add_datagram}
use ether_cat_master.Nic.{Port, getindex}
use ether_cat_master.Nic.Receive.{outframe_red}
use ether_cat_master.Master.Process.{IndexStack, pushindex}

-- The fields of `ec_groupt` that are used, and `overlappedMode` of the context. Pointers are offsets in
-- the IO map; `dc_configadr` is the address of the slave `DCnext`.
pub record ProcessGroup : Type 0 where
  pub hasdc : Bool
  pub dc_configadr : ℕ
  pub obytes : ℕ
  pub ibytes : ℕ
  pub outputs : ℕ
  pub inputs : ℕ
  pub mbxstatus : Option ℕ
  pub mbxstatuslength : ℕ
  pub logstartaddr : ℕ
  pub block_lrw : Bool
  pub isegment : ℕ
  pub ioffset : ℕ
  pub nsegments : ℕ
  pub io_segment : Array ℕ
  pub overlapped : Bool

-- What the loops work on. `left` is `length`, which may be negative; `frames` counts the frames, to
-- tell which of them the sockets take.
pub record Sending : Type 0 where
  pub port : Port
  pub idxstack : IndexStack
  pub first : Bool
  pub log_adr : ℕ
  pub currentsegment : ℕ
  pub left : ℤ
  pub segment : ℕ
  pub frames : ℕ

-- ECT_REG_DCSYSTIME
abbrev dc_systime : ℕ
dc_systime = 0x0910

-- `ecx_clearmbxstatus`, on the IO map.
unfoldable pub clearmbxstatus : ProcessGroup → Buffer → Buffer × ℕ
unfolding copy
clearmbxstatus g iomap = elim g.mbxstatus [
  | none ↦ (iomap, 0)
  | some place ↦
      if ltb 0 g.mbxstatuslength then (copy iomap place zeros g.mbxstatuslength, 1) else (iomap, 0)
]

-- A frame with a datagram, and the DC datagram in the first one. The number is `DCO`.
unfoldable pub build_frame :
    ProcessGroup → Buffer → Command → ℕ → ℕ → ℕ → Buffer → Bool → Port → Port × ℕ
unfolding setup_datagram add_datagram update
build_frame g dctime cmd idx log_adr sublength bytes first port =
    let (frame, n) =
      setup_datagram (port.txbuf idx) cmd idx (log_adr % 65536) (log_adr / 65536 % 65536) sublength
        bytes in
    let (both, n2, dco) = add_datagram frame n frmw idx false g.dc_configadr dc_systime 8 dctime in
    if first
    then (
      record port {
        txbuf = update port.txbuf idx both;
        txbuflength = update port.txbuflength idx n2;
      },
      dco,
    )
    else (
      record port {
        txbuf = update port.txbuf idx frame;
        txbuflength = update port.txbuflength idx n;
      },
      0,
    )

-- A loop sends segments with one command; `sublength` gives the size of a segment from its number and
-- the bytes left, and `shift` is where inputs are stored.
pub record Loop : Type 0 where
  pub cmd : Command
  pub sublength : ℕ → ℤ → ℕ
  pub shift : ℕ

module _ (g : ProcessGroup) where
  abbrev pub others : ℕ → ℕ
  others currentsegment = g.nsegments - (currentsegment + 1)

  -- `sublength` of the three loops, a uint16.
  abbrev pub whole_segment : ℕ → ℤ → ℕ
  whole_segment i left = g.io_segment i % 65536

  abbrev pub input_segment : ℕ → ℤ → ℕ
  input_segment i left =
      if i == g.isegment
      then (g.io_segment i + 4294967296 - g.ioffset) % 65536
      else g.io_segment i % 65536

  abbrev pub output_segment : ℕ → ℤ → ℕ
  output_segment i left =
      if ltb_ℤ left (pos (g.io_segment i % 65536))
      then pos_part left % 65536
      else g.io_segment i % 65536

  abbrev pub read_loop : Loop
  read_loop = record { cmd = lrd; sublength = input_segment; shift = 0 }

  abbrev pub write_loop : Loop
  write_loop = record { cmd = lwr; sublength = output_segment; shift = 0 }

  abbrev pub both_loop : ℕ → Loop
  both_loop shift = record { cmd = lrw; sublength = whole_segment; shift = shift }

  -- `length` and `iomapinputoffset`.
  abbrev pub all_bytes : ℕ
  all_bytes =
      if g.overlapped
      then (if ltb g.ibytes g.obytes then g.obytes else g.ibytes) + g.mbxstatuslength
      else g.obytes + g.ibytes + g.mbxstatuslength

  abbrev pub input_shift : ℕ
  input_shift = if g.overlapped && ltb 0 g.obytes then g.obytes else 0

  abbrev pub at_start : Port → IndexStack → ℕ → ℕ → ℕ → ℕ → Sending
  at_start port idxstack log_adr currentsegment left segment = record {
    port = port;
    idxstack = idxstack;
    first = g.hasdc;
    log_adr = log_adr;
    currentsegment = currentsegment;
    left = pos left;
    segment = segment;
    frames = 0;
  }

module _ (g : ProcessGroup) (iomap dctime : Buffer) (taken : ℕ → Bool × Bool) where
  -- One segment.
  unfoldable pub send_datagram : Loop → Sending → Sending
  unfolding build_frame pushindex from
  send_datagram l s =
      let size = l.sublength s.currentsegment s.left in
      let (idx, p) = getindex s.port in
      let (q, dco) =
        build_frame g dctime l.cmd idx s.log_adr size (from iomap s.segment) s.first p in
      record {
        port = outframe_red q idx (taken s.frames).0 (taken s.frames).1;
        idxstack = pushindex s.idxstack idx (s.segment + l.shift) size dco;
        first = false;
        log_adr = (s.log_adr + size) % 4294967296;
        currentsegment = s.currentsegment + 1;
        left = s.left -ℤ pos size;
        segment = s.segment + size;
        frames = s.frames + 1;
      }

  -- `do ... while (length && (currentsegment < nsegments))`: once, and again for the segments behind.
  unfoldable pub send_datagrams : ℕ → Loop → Sending → Sending
  send_datagrams zero l s = send_datagram l s
  send_datagrams (suc others) l s =
      let rest = send_datagrams others l (send_datagram l s) in
      if eqb_ℤ (send_datagram l s).left (pos 0) then send_datagram l s else rest

  abbrev pub send_inputs : Port → IndexStack → Sending
  send_inputs port idxstack =
      let s =
        at_start g port idxstack ((g.logstartaddr + g.obytes) % 4294967296) g.isegment g.ibytes
          g.inputs in
      if ltb 0 g.ibytes then send_datagrams (others g g.isegment) (read_loop g) s else s

  abbrev pub send_outputs : Sending → Sending
  send_outputs s =
      if ltb 0 g.obytes
      then send_datagrams (others g 0) (write_loop g) (record s {
        log_adr = g.logstartaddr;
        currentsegment = 0;
        left = pos g.obytes;
        segment = g.outputs;
      })
      else s

  abbrev pub send_both : Port → IndexStack → Sending
  send_both port idxstack = send_datagrams (others g 0) (both_loop g (input_shift g)) (
      at_start g port idxstack g.logstartaddr 0 (all_bytes g)
        (if ltb 0 g.obytes then g.outputs else g.inputs))

  -- The port, the stack, and the result.
  unfoldable pub send_frames : Port → IndexStack → Port × IndexStack × ℕ
  unfolding send_datagrams
  send_frames port idxstack =
      let s =
        if g.block_lrw then send_outputs (send_inputs port idxstack) else send_both port idxstack in
      if all_bytes g == 0 then (port, idxstack, 0) else (s.port, s.idxstack, 1)

-- The IO map with the mailbox status cleared, the port, the stack, and the result.
unfoldable pub send_processdata :
    ProcessGroup
    → Buffer
    → Buffer
    → (ℕ → Bool × Bool)
    → Port
    → IndexStack
    → Buffer × Port × IndexStack × ℕ
unfolding clearmbxstatus send_frames
send_processdata g iomap dctime taken port idxstack =
    let cleared = (clearmbxstatus g iomap).0 in
    let (p, stack, wkc) = send_frames g cleared dctime taken port idxstack in
    (cleared, p, stack, wkc)
