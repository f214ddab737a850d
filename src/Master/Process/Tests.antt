-- ===== src/Master/Process/Tests.antt =====
-- Two frames of process data, of which one comes back, and a group of slaves with three segments.
use ether_cat_master.Prelude.{
  ℕ, ◌≡◌, ◌-◌, ◌≤◌, Bool, refl, false, arith, ◌==◌, if◌then◌else◌, true, false, some, none, [],
}
use ether_cat_master.Memory.{Buffer, zeros}
use ether_cat_master.Nic.{Port, empty, tx}
use ether_cat_master.Nic.Wait.{expires}
use ether_cat_master.Master.Process.{IndexStack, Wait, receive_processdata}
use ether_cat_master.Master.Process.Send.{ProcessGroup, send_processdata}
use ether_cat_master.Master.Process.Cover.{Tiles}
use ether_cat_master.Master.Process.Sizes.{segments_size}
use ether_cat_master.Master.Process.Sent.{send_processdata-Tiles, send_processdata-Tiles_apart}
use ether_cat_master.Master.Process.Receive.{receive_processdata_releases}
use ether_cat_master.Master.Process.Segments.{Outside, receive_processdata_iomap}

-- An LRD of index 3 with two bytes of data and the work counter 1.
abbrev answer : Buffer
answer j =
    if j == 12
    then 0x88
    else if j == 13
    then 0xa4
    else if j == 14
    then 14
    else if j == 15
    then 0x10
    else if j == 16
    then 10
    else if j == 17
    then 3
    else if j == 26
    then 0xab
    else if j == 27
    then 0xcd
    else if j == 28
    then 1
    else 0

abbrev sent_port : Port
sent_port = record {
  stack = record {
    rxbuf = λ i. zeros;
    rxbufstat = λ i. if i == 3 then tx else if i == 4 then tx else empty;
    rxsa = zeros;
    tempbuf = zeros;
    rxcnt = 0;
  };
  red = none;
  txbuf = λ i. zeros;
  txbuflength = λ i. 30;
  txbuf2 = zeros;
  txbuflength2 = 0;
  lastidx = 4;
  sent = [];
}

-- The segments are the bytes 8 and 9, and 10 to 13.
abbrev two_frames : IndexStack
two_frames = record {
  pushed = 2;
  pulled = 0;
  idx = λ i. if i == 0 then 3 else 4;
  segment = λ i. if i == 0 then 8 else 10;
  length = λ i. if i == 0 then 2 else 4;
  dcoffset = zeros;
}

abbrev waits : ℕ → Wait
waits i = record {
  rounds =
      expires
        (record { polled = true; primary = if i == 0 then some answer else none; second = none });
  again = record {
    taken = false;
    rounds = expires (record { polled = false; primary = none; second = none });
  };
}

receive_processdata_releases_example :
    ((receive_processdata sent_port two_frames zeros zeros waits).0.port.stack.rxbufstat 4 ≡ empty)
    × ((receive_processdata sent_port two_frames zeros zeros waits).0.idxstack.pushed ≡ 0)
    × ((receive_processdata sent_port two_frames zeros zeros waits).0.idxstack.pulled ≡ 0)
receive_processdata_releases_example =
    receive_processdata_releases sent_port two_frames zeros zeros waits 1 (omega arith)
      (omega arith)

byte_7-Outside : Outside two_frames 7
byte_7-Outside place h = ground arith

receive_processdata_iomap_example :
    (receive_processdata sent_port two_frames zeros zeros waits).0.iomap 7 ≡ 0
receive_processdata_iomap_example =
    receive_processdata_iomap sent_port two_frames zeros zeros waits 7 byte_7-Outside

-- Six bytes of outputs and seven of inputs, in segments of four, five and four bytes.
abbrev group : Bool → ProcessGroup
group blocked = record {
  hasdc = true;
  dc_configadr = 0x1001;
  obytes = 6;
  ibytes = 7;
  outputs = 0;
  inputs = 6;
  mbxstatus = none;
  mbxstatuslength = 0;
  logstartaddr = 0;
  block_lrw = blocked;
  isegment = 1;
  ioffset = 2;
  nsegments = 3;
  io_segment = λ i. if i == 1 then 5 else 4;
  overlapped = false;
}

abbrev cleared : IndexStack
cleared = record {
  pushed = 0;
  pulled = 0;
  idx = zeros;
  segment = zeros;
  length = zeros;
  dcoffset = zeros;
}

abbrev after_sending : Bool → IndexStack
after_sending blocked =
    (send_processdata (group blocked) zeros zeros (λ i. (true, false)) sent_port cleared).2

send_processdata-Tiles_example : Tiles (after_sending false).pushed (after_sending false) 0 0 13
unfolding segments_size
send_processdata-Tiles_example =
    send_processdata-Tiles (group false) zeros zeros (λ i. (true, false)) sent_port cleared
      (λ i. ground arith) refl refl (omega arith) (omega arith) (omega arith) refl

send_processdata-Tiles_apart_example :
    (k : ℕ) × (k ≤ (after_sending true).pushed)
    × Tiles k (after_sending true) 0 6 7
    × Tiles ((after_sending true).pushed - k) (after_sending true) k 0 6
unfolding segments_size
send_processdata-Tiles_apart_example =
    send_processdata-Tiles_apart (group true) zeros zeros (λ i. (true, false)) sent_port cleared
      (λ i. ground arith) refl refl (omega arith) (omega arith) (omega arith) (omega arith) refl
      (omega arith)
