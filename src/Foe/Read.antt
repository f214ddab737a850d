-- ===== src/Foe/Read.antt =====
-- `ecx_FOEread`: a file comes in packets.
use ether_cat_master.Prelude.{
  ℕ, zero, suc, ◌+◌, ◌%◌, ◌==◌, ltb, leb, Bool, true, false, ◌&&◌, if◌then◌else◌,
}
use ether_cat_master.Prelude.Int.{ℤ, pos}
use ether_cat_master.Memory.{Buffer, get16, get32, copy, from}
use ether_cat_master.Mailbox.{
  Mailboxes, Reception, mailbox, nothing, Run, returns, unfinished, nextmbxcnt, clearmbx, mbxtype,
  is_mailbox, minus,
}
use ether_cat_master.Foe.{
  File, Client, maxdata, mbxt_foe, foe_read_request, foe_data, foe_ack, foe_error, opcode,
  number_of, packet_data, put_foe, file_request, reported, drop_if, other_packet, slave_error,
  buffer_too_small,
}

-- The variables of `ecx_FOEread`. The pointer `p` has moved by `dataread` bytes.
pub record Reading (S : Type 0) : Type 0 where
  pub client : Client S
  pub wkc : ℤ
  pub psize : ℕ
  pub value : Buffer
  pub dataread : ℕ
  pub prevpacket : ℕ
  pub held : Bool

-- `segmentdata`, a uint16.
abbrev pub packet_size : Buffer → ℕ
packet_size mbx = (get16 mbx 0 + 65530) % 65536

unfoldable pub ack_message : ℕ → ℕ → Buffer → Buffer
unfolding put_foe
ack_message number cnt mbx = put_foe 0 foe_ack number cnt mbx

module _ {S : Type 0} (m : Mailboxes S) (file : File) (buffersize : ℕ) where
  -- The packet is acknowledged: the client, the work counter.
  unfoldable pub acknowledge : ℕ → Client S → Client S × ℕ
  unfolding ack_message clearmbx
  acknowledge number c =
      let (link, old) = m.getmbx c.link in
      let cnt = nextmbxcnt c.mbx_cnt in
      let (sent, wkc) = m.mbxsend link (ack_message number cnt (clearmbx old)) in
      (record c { link = sent; mbx_cnt = cnt }, wkc)

  -- A packet of data: the variables, and `worktodo`.
  unfoldable pub store_packet : Buffer → Reading S → Reading S × Bool
  unfolding acknowledge copy from
  store_packet mbx r =
      let size = packet_size mbx in
      let (c, wkc) = acknowledge (number_of mbx) r.client in
      let dataread = r.dataread + size in
      (
        record r {
          client = record c { reports = reported file.hook (number_of mbx) dataread c.reports };
          wkc = pos wkc;
          value = copy r.value r.dataread (from mbx packet_data) size;
          dataread = dataread;
          prevpacket = r.prevpacket + 1;
          psize = dataread;
        },
        size == maxdata file && ltb 0 wkc,
      )

  abbrev pub refused : ℤ → Reading S → Reading S × Bool
  refused e r = (record r { wkc = e; psize = r.dataread }, false)

  abbrev pub has_room : Buffer → Reading S → Bool
  has_room mbx r =
      number_of mbx == r.prevpacket + 1 && leb (r.dataread + packet_size mbx) buffersize

  -- A packet of data, which is stored if it is the next one and fits.
  unfoldable pub take_data : Buffer → Reading S → Reading S × Bool
  unfolding store_packet get32
  take_data mbx r = if has_room mbx r then store_packet mbx r else refused buffer_too_small r

  unfoldable pub take_packet : Reception → Reading S → Reading S × Bool
  unfolding take_data
  take_packet (nothing k) r = (record r { wkc = minus k; held = false }, false)
  take_packet (mailbox n mbx) r =
      let h = record r { held = true } in
      if mbxtype mbx == mbxt_foe
      then (if opcode mbx == foe_data
          then take_data mbx h
          else if opcode mbx == foe_error
          then refused slave_error h
          else refused other_packet h)
      else refused other_packet h

  -- A round of the loop.
  unfoldable pub read_packet : Reading S → Reading S × Bool
  unfolding take_packet
  read_packet r =
      let (link, got) = m.mbxreceive (drop_if m r.held r.client.link) in
      take_packet got (record r { client = record r.client { link = link } })

  -- `if (MbxIn) ecx_dropmbx(context, MbxIn);` and the return.
  abbrev pub finish : Reading S → Reading S
  finish r = record r {
    client = record r.client { link = drop_if m r.held r.client.link };
    held = false;
  }

  unfoldable pub read_packets : ℕ → Reading S → Run (Reading S)
  read_packets zero r = unfinished
  read_packets (suc rounds) r =
      let rest = read_packets rounds (read_packet r).0 in
      if (read_packet r).1 then rest else returns (finish (read_packet r).0)

  abbrev pub begin : Client S → Reception → ℕ → Buffer → Reading S
  begin c stale wkc p = record {
    client = c;
    wkc = pos wkc;
    psize = buffersize;
    value = p;
    dataread = 0;
    prevpacket = 0;
    held = is_mailbox stale;
  }

  unfoldable pub foe_read : ℕ → Buffer → Client S → Run (Reading S)
  unfolding file_request clearmbx read_packets
  foe_read rounds p c =
      let (l1, stale) = m.mbxreceive c.link in
      let (l2, old) = m.getmbx l1 in
      let cnt = nextmbxcnt c.mbx_cnt in
      let (l3, wkc) = m.mbxsend l2 (file_request foe_read_request file cnt (clearmbx old)) in
      let r = begin (record c { link = l3; mbx_cnt = cnt }) stale wkc p in
      if ltb 0 wkc then read_packets rounds r else returns (finish r)
