-- ===== src/Config.antt =====
-- The segments of the process data, as `ecx_main_config_map_group` (src/ec_config.c) lays them out.
pub mod Sums
pub mod Bounds
pub mod Behind
pub mod Filled
pub mod Sent
pub mod Apart
mod Tests
use ether_cat_master.Prelude.{
  ℕ, zero, suc, ◌+◌, ◌-◌, ◌%◌, ltb, leb, Bool, true, false, ◌&&◌, if◌then◌else◌, List, [], ◌∷◌,
  some,
}
use ether_cat_master.Memory.{Array, update}
use ether_cat_master.Master.Process.Send.{ProcessGroup}

-- EC_MAXLRWDATA, EC_FIRSTDCDATAGRAM and EC_MAXIOSEGMENTS.
abbrev pub ec_maxlrwdata : ℕ
ec_maxlrwdata = 1486

abbrev pub ec_firstdcdatagram : ℕ
ec_firstdcdatagram = 20

abbrev pub ec_maxiosegments : ℕ
ec_maxiosegments = 64

-- The list of segments, what is in the one that is open, and the work counter of the direction that is
-- mapped.
pub record Layout : Type 0 where
  pub io_segment : Array ℕ
  pub currentsegment : ℕ
  pub segmentsize : ℕ
  pub segmentmaxsize : ℕ
  pub wkc : ℕ

-- `IOsegment[currentsegment++] = size`
unfoldable pub close_segment : Layout → ℕ → Layout
unfolding update
close_segment l size = record l {
  io_segment = update l.io_segment l.currentsegment size;
  currentsegment = l.currentsegment + 1;
  segmentsize = l.segmentsize - size;
  segmentmaxsize = ec_maxlrwdata;
}

-- A slave whose data do not fit in the open segment begins a new one.
unfoldable pub make_room : ℕ → Layout → Layout
unfolding close_segment
make_room diff l =
    if ltb l.segmentmaxsize (l.segmentsize + diff)
      && leb diff l.segmentmaxsize
      && ltb l.currentsegment ec_maxiosegments
    then close_segment l l.segmentsize
    else l

-- The `while` loop. A round closes one of the 64 segments, so that as many rounds as are left are enough.
unfoldable pub split : ℕ → Layout → Layout
unfolding close_segment
split zero l = l
split (suc rounds) l =
    let rest = split rounds (record (close_segment l l.segmentmaxsize) { wkc = l.wkc + 1 }) in
    if ltb l.segmentmaxsize l.segmentsize && ltb l.currentsegment ec_maxiosegments then rest else l

-- The data of a slave move the logical address by `diff`.
unfoldable pub map_slave : ℕ → Layout → Layout
unfolding make_room split
map_slave diff l =
    let start : Layout = make_room diff l in
    let full : Layout =
      split (ec_maxiosegments - start.currentsegment)
        (record start { segmentsize = start.segmentsize + diff }) in
    if ltb 0 full.segmentsize && ltb 0 diff then record full { wkc = full.wkc + 1 } else full

unfoldable pub map_slaves : List ℕ → Layout → Layout
unfolding map_slave
map_slaves [] l = l
map_slaves (diff ∷ diffs) l = map_slaves diffs (map_slave diff l)

-- Bits that are left over behind the last slave. Outputs reset the size of a segment, inputs keep it.
unfoldable pub map_bits : Bool → Bool → Layout → Layout
unfolding close_segment
map_bits outputs bits l =
    if bits
    then (if ltb l.segmentmaxsize (l.segmentsize + 1) && ltb l.currentsegment ec_maxiosegments
        then record (close_segment l l.segmentsize) {
          segmentsize = 1;
          segmentmaxsize = if outputs then ec_maxlrwdata else l.segmentmaxsize;
          wkc = l.wkc + 1;
        }
        else record l { segmentsize = l.segmentsize + 1 })
    else l

-- The mailbox status of a slave.
unfoldable pub map_status : ℕ → Layout → Layout
unfolding update
map_status diff l =
    if ltb (ec_maxlrwdata - ec_firstdcdatagram) (l.segmentsize + diff)
    then (if ltb l.currentsegment (ec_maxiosegments - 1)
        then record l {
          io_segment = update l.io_segment l.currentsegment l.segmentsize;
          currentsegment = l.currentsegment + 1;
          segmentsize = diff;
        }
        else record l { io_segment = update l.io_segment l.currentsegment l.segmentsize })
    else record l { segmentsize = l.segmentsize + diff }

-- The bytes that a slave has for the status of its mailbox, if it has one.
abbrev pub status_size : Bool → ℕ
status_size mailbox = if mailbox then 1 else 0

unfoldable pub map_statuses : List Bool → Layout → Layout
unfolding map_status
map_statuses [] l = l
map_statuses (mailbox ∷ mailboxes) l = map_statuses mailboxes (map_status (status_size mailbox) l)

-- `IOsegment[currentsegment] = segmentsize`, the open segment.
unfoldable pub store_open : Layout → Layout
unfolding update
store_open l = record l { io_segment = update l.io_segment l.currentsegment l.segmentsize }

-- What the layout is made of: by how much each slave moves the logical address, and which
-- slaves have a mailbox.
pub record Sizes : Type 0 where
  pub outputs : List ℕ
  pub output_bits : Bool
  pub inputs : List ℕ
  pub input_bits : Bool
  pub mailboxes : List Bool

-- What the group keeps. `inputs_wkc` is the expected work counter before the mailbox status, where
-- slaves without inputs add to it.
pub record Mapping : Type 0 where
  pub io_segment : Array ℕ
  pub nsegments : ℕ
  pub isegment : ℕ
  pub ioffset : ℕ
  pub outputs_wkc : ℕ
  pub inputs_wkc : ℕ

abbrev pub layout : Array ℕ → Layout
layout old = record {
  io_segment = old;
  currentsegment = 0;
  segmentsize = 0;
  segmentmaxsize = ec_maxlrwdata - ec_firstdcdatagram;
  wkc = 0;
}

unfoldable pub map_outputs : Sizes → Layout → Layout
map_outputs s l = map_bits true s.output_bits (map_slaves s.outputs l)

unfoldable pub map_inputs : Sizes → Layout → Layout
map_inputs s l =
    store_open (map_bits false s.input_bits (map_slaves s.inputs (record l { wkc = 0 })))

unfoldable pub map_all : Sizes → Layout → Layout
map_all s l = store_open (map_statuses s.mailboxes (map_inputs s (map_outputs s l)))

-- The segments of a group whose list held `old`.
unfoldable pub config_map : Sizes → Array ℕ → Mapping
config_map s old =
    let out : Layout = map_outputs s (layout old) in
    let ins : Layout = map_inputs s out in
    let all : Layout = map_all s (layout old) in
    record {
      io_segment = all.io_segment;
      nsegments = all.currentsegment + 1;
      isegment = out.currentsegment;
      ioffset = out.segmentsize % 65536;
      outputs_wkc = out.wkc;
      inputs_wkc = ins.wkc;
    }

-- Obytes, Ibytes and the bytes of mailbox status.
unfoldable pub bytes_of : List ℕ → ℕ
bytes_of [] = 0
bytes_of (diff ∷ diffs) = diff + bytes_of diffs

unfoldable pub byte_of : Bool → ℕ
byte_of bits = if bits then 1 else 0

unfoldable pub statuses_of : List Bool → ℕ
statuses_of [] = 0
statuses_of (mailbox ∷ mailboxes) = status_size mailbox + statuses_of mailboxes

unfoldable pub output_bytes : Sizes → ℕ
unfolding bytes_of byte_of
output_bytes s = bytes_of s.outputs + byte_of s.output_bits

unfoldable pub input_bytes : Sizes → ℕ
unfolding bytes_of byte_of
input_bytes s = bytes_of s.inputs + byte_of s.input_bits

-- What the mapping sets in a group, with the IO map at 0. The length of the mailbox status is what the
-- code computes, LogAddr - Obytes - Ibytes.
unfoldable pub map_group : Sizes → Array ℕ → ProcessGroup → ProcessGroup
map_group s old g =
    let m : Mapping = config_map s old in
    record g {
      outputs = 0;
      obytes = output_bytes s;
      inputs = output_bytes s;
      ibytes = input_bytes s;
      mbxstatus = some (output_bytes s + input_bytes s);
      mbxstatuslength = g.logstartaddr + statuses_of s.mailboxes;
      io_segment = m.io_segment;
      nsegments = m.nsegments;
      isegment = m.isegment;
      ioffset = m.ioffset;
    }
