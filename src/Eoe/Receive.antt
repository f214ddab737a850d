-- ===== src/Eoe/Receive.antt =====
-- `ecx_EOErecv` and `ecx_EOEreadfragment`: fragments are put together.
use ether_cat_master.Prelude.{
  ℕ, zero, suc, ◌+◌, ◌-◌, ◌*◌, ◌%◌, ◌==◌, ltb, leb, Bool, not, ◌&&◌, ◌||◌, if◌then◌else◌,
}
use ether_cat_master.Prelude.Int.{ℤ, pos, sub_ℕ}
use ether_cat_master.Memory.{Buffer, get16, copy, from}
use ether_cat_master.Mailbox.{
  Mailboxes, Reception, mailbox, nothing, Run, returns, undefined, unfinished, mbxtype, minus,
}
use ether_cat_master.Eoe.{
  mbxt_eoe, frame_port, last_fragment, time_append, frag_no, frame_offset, frame_no, frameinfo1,
  frameinfo2, eoe_data, invalid_rx_data, unexpected_packet,
}

-- The variables of the loop. The frame number is 0xff before the first fragment.
pub record Reassembly : Type 0 where
  pub rxfragmentno : ℕ
  pub rxframeno : ℕ
  pub rxframeoffset : ℕ
  pub buf : Buffer

-- What a fragment brings: an error, the end with the size of the frame, or the wait for the next one.
-- A length below 4 gives `memcpy` a negative size.
pub data Step : Type 0 where
  refused : ℤ → Step
  ends : ℤ → Reassembly → Step
  goes_on : Reassembly → Step
  breaks : Step

-- The tests on a fragment, in the order of the code: true for each that refuses it.
abbrev wrong_number : Buffer → Reassembly → Bool
wrong_number mbx r =
    not (r.rxfragmentno == frag_no (frameinfo2 mbx)) && ltb 0 (frag_no (frameinfo2 mbx))

abbrev wrong_start : ℕ → ℕ → Buffer → Bool
wrong_start port buffersize mbx =
    ltb buffersize (frame_offset (frameinfo2 mbx) * 32) || not (port == frame_port (frameinfo1 mbx))

abbrev wrong_place : Buffer → Reassembly → Bool
wrong_place mbx r =
    not (r.rxframeno == frame_no (frameinfo2 mbx))
    || not (r.rxframeoffset == frame_offset (frameinfo2 mbx) * 32)

-- The frame number is taken from the first fragment.
abbrev pub with_number : Buffer → Reassembly → Reassembly
with_number mbx r = record r {
  rxframeno = if r.rxfragmentno == 0 then frame_no (frameinfo2 mbx) else r.rxframeno;
}

-- `eoedatasize`
abbrev pub data_size : Buffer → ℕ
data_size mbx = get16 mbx 0 - 4

-- The data go in where they fit, and are passed over where they do not.
unfoldable pub take_data : ℕ → Buffer → Reassembly → Reassembly
unfolding copy from
take_data buffersize mbx r =
    if leb (r.rxframeoffset + data_size mbx) buffersize
    then record r {
      buf = copy r.buf r.rxframeoffset (from mbx eoe_data) (data_size mbx);
      rxframeoffset = r.rxframeoffset + data_size mbx;
      rxfragmentno = (r.rxfragmentno + 1) % 256;
    }
    else r

-- The size at the end, without the timestamp.
abbrev pub final_size : Buffer → Reassembly → ℤ
final_size mbx r =
    if time_append (frameinfo1 mbx) == 1 then sub_ℕ r.rxframeoffset 4 else pos r.rxframeoffset

abbrev pub after_data : ℕ → Buffer → Reassembly → Step
after_data buffersize mbx r =
    if last_fragment (frameinfo1 mbx) == 1
    then ends (final_size mbx (take_data buffersize mbx r)) (take_data buffersize mbx r)
    else goes_on (take_data buffersize mbx r)

-- One mailbox of the loop of `ecx_EOErecv`.
unfoldable pub take_fragment : ℕ → ℕ → Buffer → Reassembly → Step
unfolding take_data
take_fragment port buffersize mbx r =
    if not (mbxtype mbx == mbxt_eoe)
    then refused unexpected_packet
    else if wrong_number mbx r
    then refused invalid_rx_data
    else if r.rxfragmentno == 0 && wrong_start port buffersize mbx
    then refused invalid_rx_data
    else if not (r.rxfragmentno == 0) && wrong_place mbx r
    then refused invalid_rx_data
    else if ltb (get16 mbx 0) 4
    then breaks
    else after_data buffersize mbx (with_number mbx r)

-- What `ecx_EOErecv` leaves: the link, the result, the size and the bytes.
pub record Received (S : Type 0) : Type 0 where
  pub link : S
  pub wkc : ℤ
  pub psize : ℤ
  pub buf : Buffer

module _ {S : Type 0} (m : Mailboxes S) (port buffersize : ℕ) where
  unfoldable pub receive_fragments : ℕ → S × Reception → Reassembly → Run (Received S)
  receive_fragments zero got r = unfinished
  receive_fragments (suc rounds) (link, nothing k) r =
      returns (record { link = link; wkc = minus k; psize = pos buffersize; buf = r.buf })
  receive_fragments (suc rounds) (link, mailbox n mbx) r =
      elim (take_fragment port buffersize mbx r) [
        | refused e ↦
            returns (record { link = m.dropmbx link; wkc = e; psize = pos buffersize; buf = r.buf })
        | ends size r' ↦
            returns
              (record { link = m.dropmbx link; wkc = pos (n + 1); psize = size; buf = r'.buf })
        | goes_on r' ↦ receive_fragments rounds (m.mbxreceive (m.dropmbx link)) r'
        | breaks ↦ undefined
      ]

  unfoldable pub eoe_recv : ℕ → Buffer → S → Run (Received S)
  eoe_recv rounds buf link =
      receive_fragments rounds (m.mbxreceive link)
        (record { rxfragmentno = 0; rxframeno = 0xff; rxframeoffset = 0; buf = buf })

-- The variables that the caller of `ecx_EOEreadfragment` keeps.
pub record Progress : Type 0 where
  pub rxfragmentno : ℕ
  pub rxframesize : ℕ
  pub rxframeoffset : ℕ
  pub rxframeno : ℕ
  pub psize : ℕ
  pub buf : Buffer

abbrev reset : Progress → Progress
reset p = record p { rxfragmentno = 0; rxframesize = 0; rxframeoffset = 0; rxframeno = 0 }

-- The fragment number is compared first, which may begin a new frame.
abbrev renumbered : Buffer → Progress → Progress
renumbered mbx p =
    if not (p.rxfragmentno == frag_no (frameinfo2 mbx)) && not (p.rxfragmentno == 0)
    then reset p
    else p

abbrev new_frame : Buffer → Progress → Progress
new_frame mbx p =
    if p.rxfragmentno == 0
    then record p {
      rxframesize = frame_offset (frameinfo2 mbx) * 32;
      rxframeoffset = 0;
      rxframeno = frame_no (frameinfo2 mbx);
    }
    else p

-- `eoedatasize` is a uint16_t here.
abbrev word_size : Buffer → ℕ
word_size mbx = (get16 mbx 0 + 65532) % 65536

abbrev store_data : Buffer → Progress → Progress
store_data mbx p =
    if leb (p.rxframeoffset + word_size mbx) p.rxframesize
      && leb (p.rxframeoffset + word_size mbx) p.psize
    then record p {
      buf = copy p.buf p.rxframeoffset (from mbx eoe_data) (word_size mbx);
      rxframeoffset = (p.rxframeoffset + word_size mbx) % 65536;
      rxfragmentno = (p.rxfragmentno + 1) % 256;
    }
    else p

abbrev frame_end : Buffer → Progress → Progress
frame_end mbx p = reset (record p {
  psize =
      if time_append (frameinfo1 mbx) == 1
      then (p.rxframeoffset + 65532) % 65536
      else p.rxframeoffset;
})

abbrev finish_fragment : Buffer → Progress → Progress × ℤ
finish_fragment mbx p =
    if last_fragment (frameinfo1 mbx) == 1 then (frame_end mbx p, pos 1) else (p, pos 0)

abbrev in_frame : Buffer → Progress → Progress × ℤ
in_frame mbx p =
    if not (p.rxfragmentno == 0)
      && (not (p.rxframeno == frame_no (frameinfo2 mbx))
          || not (p.rxframeoffset == frame_offset (frameinfo2 mbx) * 32))
    then (reset p, invalid_rx_data)
    else finish_fragment mbx (store_data mbx (new_frame mbx p))

unfoldable pub eoe_readfragment : Buffer → Progress → Progress × ℤ
unfolding copy from
eoe_readfragment mbx p =
    if not (mbxtype mbx == mbxt_eoe)
    then (p, unexpected_packet)
    else if not (p.rxfragmentno == frag_no (frameinfo2 mbx)) && ltb 0 (frag_no (frameinfo2 mbx))
    then (renumbered mbx p, invalid_rx_data)
    else in_frame mbx (renumbered mbx p)
