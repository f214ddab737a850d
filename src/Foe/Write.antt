-- ===== src/Foe/Write.antt =====
-- `ecx_FOEwrite`: a file goes out in packets.
use ether_cat_master.Prelude.{
  ℕ, zero, suc, ◌+◌, ◌-◌, ◌==◌, ltb, Bool, true, false, not, ◌&&◌, ◌||◌, if◌then◌else◌,
}
use ether_cat_master.Prelude.Int.{ℤ, pos}
use ether_cat_master.Memory.{Buffer, get32, copy, from}
use ether_cat_master.Mailbox.{
  Mailboxes, Reception, mailbox, nothing, Run, returns, unfinished, nextmbxcnt, clearmbx, mbxtype,
  is_mailbox, minus,
}
use ether_cat_master.Foe.{
  File, Client, maxdata, mbxt_foe, foe_write_request, foe_data, foe_ack, foe_error, foe_busy,
  opcode, number_of, packet_data, put_foe, file_request, reported, drop_if, other_packet,
  slave_error, wrong_packetnumber, file_not_found,
}

-- The variables of `ecx_FOEwrite`: `place` is how far `p` has moved, `psize` what is left.
pub record Writing (S : Type 0) : Type 0 where
  pub client : Client S
  pub wkc : ℤ
  pub place : ℕ
  pub psize : ℕ
  pub segmentdata : ℕ
  pub sendpacket : ℕ
  pub dofinalzero : Bool
  pub held : Bool

-- `tsize`
abbrev pub packet_size : File → ℕ → ℕ
packet_size file psize = if ltb (maxdata file) psize then maxdata file else psize

unfoldable pub data_message : ℕ → ℕ → Buffer → ℕ → Buffer → Buffer
unfolding put_foe copy
data_message number size p cnt mbx = copy (put_foe size foe_data number cnt mbx) packet_data p size

module _ {S : Type 0} (m : Mailboxes S) (file : File) (p : Buffer) where
  -- The next packet goes out: the variables, and `worktodo`.
  unfoldable pub send_packet : Writing S → Writing S × Bool
  unfolding data_message clearmbx from
  send_packet w =
      let size = packet_size file w.psize in
      let (link, old) = m.getmbx w.client.link in
      let cnt = nextmbxcnt w.client.mbx_cnt in
      let message = data_message (w.sendpacket + 1) size (from p w.place) cnt (clearmbx old) in
      let (sent, wkc) = m.mbxsend link message in
      (
        record w {
          client = record w.client { link = sent; mbx_cnt = cnt };
          wkc = pos wkc;
          place = w.place + size;
          psize = w.psize - size;
          segmentdata = size;
          sendpacket = w.sendpacket + 1;
          dofinalzero = w.psize - size == 0 && size == maxdata file;
        },
        ltb 0 wkc,
      )

  -- A packet follows while there are data, or the empty one at the end.
  unfoldable pub send_next : Writing S → Writing S × Bool
  unfolding send_packet
  send_next w =
      if not (packet_size file w.psize == 0) || w.dofinalzero then send_packet w else (w, false)

  -- The acknowledgement of the last packet.
  unfoldable pub take_ack : ℕ → Writing S → Writing S × Bool
  unfolding send_next
  take_ack number w =
      if number == w.sendpacket
      then send_next (record w {
        client = record w.client { reports = reported file.hook number w.psize w.client.reports };
      })
      else (record w { wkc = wrong_packetnumber }, false)

  -- The slave is busy: the last packet is taken back and sent again, if there was one.
  unfoldable pub take_busy : Writing S → Writing S × Bool
  unfolding send_next
  take_busy w =
      if w.sendpacket == 0
      then (w, false)
      else send_next (record w {
        psize = w.psize + w.segmentdata;
        place = w.place - w.segmentdata;
        sendpacket = w.sendpacket - 1;
      })

  abbrev pub failed : ℤ → Writing S → Writing S × Bool
  failed e w = (record w { wkc = e }, false)

  unfoldable pub take_response : Reception → Writing S → Writing S × Bool
  unfolding take_ack take_busy get32
  take_response (nothing k) w = (record w { wkc = minus k; held = false }, false)
  take_response (mailbox n mbx) w =
      let h = record w { wkc = pos (n + 1); held = true } in
      if mbxtype mbx == mbxt_foe
      then (if opcode mbx == foe_ack
          then take_ack (number_of mbx) h
          else if opcode mbx == foe_busy
          then take_busy h
          else if opcode mbx == foe_error
          then failed (if number_of mbx == 0x8001 then file_not_found else slave_error) h
          else failed other_packet h)
      else failed other_packet h

  -- A round of the loop.
  unfoldable pub write_packet : Writing S → Writing S × Bool
  unfolding take_response
  write_packet w =
      let (link, got) = m.mbxreceive (drop_if m w.held w.client.link) in
      take_response got (record w { client = record w.client { link = link } })

  -- `if (MbxIn) ecx_dropmbx(context, MbxIn);` and the return.
  abbrev pub finish : Writing S → Client S × ℤ
  finish w = (record w.client { link = drop_if m w.held w.client.link }, w.wkc)

  unfoldable pub write_packets : ℕ → Writing S → Run (Client S × ℤ)
  write_packets zero w = unfinished
  write_packets (suc rounds) w =
      let rest = write_packets rounds (write_packet w).0 in
      if (write_packet w).1 then rest else returns (finish (write_packet w).0)

  abbrev pub begin : Client S → Reception → ℕ → ℕ → Writing S
  begin c stale wkc psize = record {
    client = c;
    wkc = pos wkc;
    place = 0;
    psize = psize;
    segmentdata = 0;
    sendpacket = 0;
    dofinalzero = true;
    held = is_mailbox stale;
  }

  unfoldable pub foe_write : ℕ → ℕ → Client S → Run (Client S × ℤ)
  unfolding file_request clearmbx write_packets
  foe_write rounds psize c =
      let (l1, stale) = m.mbxreceive c.link in
      let (l2, old) = m.getmbx l1 in
      let cnt = nextmbxcnt c.mbx_cnt in
      let (l3, wkc) = m.mbxsend l2 (file_request foe_write_request file cnt (clearmbx old)) in
      let w = begin (record c { link = l3; mbx_cnt = cnt }) stale wkc psize in
      if ltb 0 wkc then write_packets rounds w else returns (finish w)
