-- ===== src/Config/Tests.antt =====
-- A group with a large drive, a small one, bits left over, and a mailbox.
use ether_cat_master.Prelude.{ℕ, ◌≡◌, ◌≤◌, ◌+◌, ◌-◌, refl, arith, true, false, none, [], ◌∷◌}
use ether_cat_master.Memory.{zeros}
use ether_cat_master.Nic.{Port, empty}
use ether_cat_master.Master.Process.{IndexStack}
use ether_cat_master.Master.Process.Send.{ProcessGroup, send_processdata}
use ether_cat_master.Master.Process.Cover.{Tiles}
use ether_cat_master.Master.Process.Sizes.{segments_size}
use ether_cat_master.Config.{
  Sizes, config_map, map_all, map_outputs, map_inputs, map_slaves, map_bits, map_statuses,
  store_open, statuses_of, output_bytes, input_bytes, map_group,
}
use ether_cat_master.Config.Filled.{config_map_lem}
use ether_cat_master.Config.Apart.{send_processdata-map_group_apart}
use ether_cat_master.Config.Sent.{send_processdata-map_group}

abbrev group_sizes : Sizes
group_sizes = record {
  outputs = 2000 ∷ 8 ∷ [];
  output_bits = true;
  inputs = 1400 ∷ 0 ∷ [];
  input_bits = false;
  mailboxes = true ∷ false ∷ [];
}

-- 1466 bytes, 543 and 1401.
three_segments : (config_map group_sizes zeros).nsegments ≡ 3
unfolding config_map map_all map_outputs map_inputs map_slaves map_bits map_statuses store_open
three_segments = refl

first_input : (config_map group_sizes zeros).ioffset ≡ 543
unfolding config_map map_all map_outputs map_inputs map_slaves map_bits map_statuses store_open
first_input = refl

all_data :
    output_bytes group_sizes + input_bytes group_sizes + statuses_of (true ∷ false ∷ []) ≡ 3410
unfolding output_bytes input_bytes statuses_of
all_data = refl

config_map_lem_example :
    (segments_size
        (config_map group_sizes zeros).io_segment
        (config_map group_sizes zeros).nsegments
        0
      ≡ output_bytes group_sizes + input_bytes group_sizes + statuses_of group_sizes.mailboxes)
    × ((i : ℕ) → (config_map group_sizes zeros).io_segment i ≤ 1486)
config_map_lem_example =
    config_map_lem group_sizes zeros (λ i. omega arith) (omega (arith, three_segments))

abbrev blank_group : ProcessGroup
blank_group = record {
  hasdc = false;
  dc_configadr = 0;
  obytes = 0;
  ibytes = 0;
  outputs = 0;
  inputs = 0;
  mbxstatus = none;
  mbxstatuslength = 0;
  logstartaddr = 0;
  block_lrw = false;
  isegment = 0;
  ioffset = 0;
  nsegments = 0;
  io_segment = zeros;
  overlapped = false;
}

abbrev port : Port
port = record {
  stack = record {
    rxbuf = λ i. zeros;
    rxbufstat = λ i. empty;
    rxsa = zeros;
    tempbuf = zeros;
    rxcnt = 0;
  };
  red = none;
  txbuf = λ i. zeros;
  txbuflength = zeros;
  txbuf2 = zeros;
  txbuflength2 = 0;
  lastidx = 0;
  sent = [];
}

abbrev no_frames : IndexStack
no_frames = record {
  pushed = 0;
  pulled = 0;
  idx = zeros;
  segment = zeros;
  length = zeros;
  dcoffset = zeros;
}

abbrev after_sending : IndexStack
after_sending =
    (send_processdata (map_group group_sizes zeros blank_group) zeros zeros (λ i. (true, false))
      port no_frames).2

send_processdata-map_group_example :
    Tiles after_sending.pushed after_sending 0 0
      (output_bytes group_sizes + input_bytes group_sizes + statuses_of group_sizes.mailboxes)
send_processdata-map_group_example =
    send_processdata-map_group group_sizes zeros blank_group zeros zeros (λ i. (true, false)) port
      no_frames (λ i. omega arith) refl refl refl (omega (arith, all_data))
      (omega (arith, three_segments)) refl

abbrev plain_sizes : Sizes
plain_sizes = record group_sizes { inputs = 1480 ∷ 0 ∷ []; mailboxes = false ∷ false ∷ [] }

abbrev blocked_group : ProcessGroup
blocked_group = record blank_group { block_lrw = true }

abbrev after_both : IndexStack
after_both =
    (send_processdata (map_group plain_sizes zeros blocked_group) zeros zeros (λ i. (true, false))
      port no_frames).2

-- 1480 bytes are more than a status may follow: the segment is closed and an empty one opened.
four_plain : (config_map plain_sizes zeros).nsegments ≡ 4
unfolding config_map map_all map_outputs map_inputs map_slaves map_bits map_statuses store_open
four_plain = refl

plain_data : output_bytes plain_sizes + input_bytes plain_sizes ≡ 3489
unfolding output_bytes input_bytes
plain_data = refl

send_processdata-map_group_apart_example :
    (k : ℕ) × (k ≤ after_both.pushed)
    × Tiles k after_both 0 (output_bytes plain_sizes) (input_bytes plain_sizes)
    × Tiles (after_both.pushed - k) after_both k 0 (output_bytes plain_sizes)
unfolding statuses_of
send_processdata-map_group_apart_example =
    send_processdata-map_group_apart plain_sizes zeros blocked_group zeros zeros
      (λ i. (true, false)) port no_frames refl (λ i. omega arith) refl refl
      (omega (arith, plain_data)) (omega (arith, four_plain)) refl
