-- ===== src/Eoe/Send.antt =====
-- `ecx_EOEsend`: a frame goes out in fragments.
use ether_cat_master.Prelude.{
  ℕ, zero, suc, ◌+◌, ◌-◌, ◌*◌, ◌/◌, ◌%◌, ◌==◌, ltb, Bool, not, ◌&&◌, if◌then◌else◌,
}
use ether_cat_master.Prelude.Int.{ℤ, pos, negsuc}
use ether_cat_master.Memory.{Buffer, put16, copy, from}
use ether_cat_master.Mailbox.{
  Mailboxes, Run, returns, unfinished, nextmbxcnt, clearmbx, put_mbxheader,
}
use ether_cat_master.Eoe.{mbxt_eoe, frameinfo1_of, frameinfo2_of, eoe_data}

-- The link to the slave, its mailbox counter, and the static frame number of `ecx_EOEsend`.
pub record Sender (S : Type 0) : Type 0 where
  pub link : S
  pub mbx_cnt : ℕ
  pub txframeno : ℕ

-- The frame to send: the bytes, their number, the port, and the room for data in a mailbox.
pub record Outgoing : Type 0 where
  pub port : ℕ
  pub psize : ℕ
  pub bytes : Buffer
  pub maxdata : ℕ

-- `maxdata`: what the mailbox has behind its own header and the header of EoE.
abbrev pub outgoing : ℕ → ℕ → ℕ → Buffer → Outgoing
outgoing mbx_l port psize p = record {
  port = port;
  psize = psize;
  bytes = p;
  maxdata = mbx_l - 0x0a;
}

-- `txframesize` at an offset, in whole blocks of 32 bytes unless it is the rest.
unfoldable pub fragment_size : Outgoing → ℕ → ℕ
fragment_size o offset =
    if ltb o.maxdata (o.psize - offset) then o.maxdata / 32 * 32 else o.psize - offset

unfoldable pub is_last : Outgoing → ℕ → Bool
unfolding fragment_size
is_last o offset = fragment_size o offset == o.psize - offset

-- The offset field: of the first fragment, the size of the frame in blocks.
unfoldable pub offset_field : Outgoing → ℕ → ℕ → ℕ
offset_field o offset fragment = if ltb 0 fragment then offset / 32 else (o.psize + 31) / 32

-- The bytes of a fragment, in the mailbox `mbx`.
unfoldable pub put_fragment : Outgoing → ℕ → ℕ → ℕ → ℕ → Buffer → Buffer
unfolding fragment_size is_last offset_field put_mbxheader put16 copy from
put_fragment o offset fragment frame cnt mbx =
    copy
      (put16
        (put16 (put_mbxheader mbx ((4 + fragment_size o offset) % 65536) mbxt_eoe cnt) 6
          (frameinfo1_of 0 o.port (if is_last o offset then 1 else 0)))
        8 (frameinfo2_of fragment (offset_field o offset fragment) frame))
      eoe_data (from o.bytes offset) (fragment_size o offset)

module _ {S : Type 0} (m : Mailboxes S) where
  -- One round of the loop: the sender and the work counter.
  unfoldable pub send_fragment : Outgoing → ℕ → ℕ → Sender S → Sender S × ℕ
  send_fragment o offset fragment s =
      let (link, old) = m.getmbx s.link in
      let frame = if ltb 0 fragment then s.txframeno else (s.txframeno + 1) % 256 in
      let cnt = nextmbxcnt s.mbx_cnt in
      let (sent, wkc) = m.mbxsend link (put_fragment o offset fragment frame cnt (clearmbx old)) in
      (record { link = sent; mbx_cnt = cnt; txframeno = frame }, wkc)

  unfoldable pub send_fragments : ℕ → Outgoing → ℕ → ℕ → Sender S → Run (Sender S × ℤ)
  send_fragments zero o offset fragment s = unfinished
  send_fragments (suc rounds) o offset fragment s =
      let now : Sender S × ℕ = send_fragment o offset fragment s in
      let rest =
        send_fragments rounds o (offset + fragment_size o offset) ((fragment + 1) % 256) now.0 in
      if not (is_last o offset) && ltb 0 now.1 then rest else returns (now.0, pos now.1)

  unfoldable pub eoe_send : ℕ → ℕ → ℕ → ℕ → Buffer → Sender S → Run (Sender S × ℤ)
  eoe_send rounds mbx_l port psize p s =
      if ltb mbx_l 0x0a
      then returns (s, negsuc 0)
      else send_fragments rounds (outgoing mbx_l port psize p) 0 0 s
