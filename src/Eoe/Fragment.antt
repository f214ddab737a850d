-- ===== src/Eoe/Fragment.antt =====
-- A fragment as the receiver reads it: each field of what `put_fragment` writes, and the step of
-- `ecx_EOErecv` on such a fragment.
use ether_cat_master.Prelude.{ℕ, ◌+◌, ◌*◌, ◌/◌, ◌%◌, ◌<◌, ◌≤◌, ◌≡◌, if◌then◌else◌, arith, ◌∙◌}
use ether_cat_master.Memory.{Buffer, update, put16, get16, copy, from}
use ether_cat_master.Mailbox.{put_mbxheader, mbxtype}
use ether_cat_master.Eoe.{
  mbxt_eoe, frameinfo1, frameinfo2, frameinfo1_of, frameinfo2_of, eoe_data, frame_port, frag_no,
  frame_offset, frame_no,
}
use ether_cat_master.Eoe.Send.{Outgoing, fragment_size, is_last, offset_field, put_fragment}
use ether_cat_master.Eoe.Receive.{
  after_data, with_number, data_size, Reassembly, take_fragment, take_data,
}

word : (w : ℕ) → w < 65536 → w % 256 + 256 * (w / 256 % 256) ≡ w
word w h = omega arith

-- The rest of a frame is shorter than the frame.
pub room : (o : Outgoing) (offset : ℕ) → o.maxdata < 65532 → fragment_size o offset < 65532
unfolding fragment_size
room o offset h = ground arith

abbrev pub last_bit : Outgoing → ℕ → ℕ
last_bit o offset = if is_last o offset then 1 else 0

frameinfo1_lt : (port last : ℕ) → frameinfo1_of 0 port last < 65536
frameinfo1_lt port last = omega arith

frameinfo2_lt : (fragment offset frame : ℕ) → frameinfo2_of fragment offset frame < 65536
frameinfo2_lt fragment offset frame = omega arith

module _ (o : Outgoing) (offset fragment frame cnt : ℕ) (mbx : Buffer) where
  abbrev pub written : Buffer
  written = put_fragment o offset fragment frame cnt mbx

  pub mbxtype-put : mbxtype written ≡ mbxt_eoe
  unfolding put_fragment put_mbxheader put16 copy from update
  mbxtype-put = ground arith

  pub length-put : fragment_size o offset < 65532 → get16 written 0 ≡ 4 + fragment_size o offset
  unfolding put_fragment fragment_size put_mbxheader put16 get16 copy from update
  length-put h = word ((4 + fragment_size o offset) % 65536) (omega arith) ∙ omega arith

  pub frameinfo1-put : frameinfo1 written ≡ frameinfo1_of 0 o.port (last_bit o offset)
  unfolding put_fragment put_mbxheader put16 get16 copy from update
  frameinfo1-put =
      word (frameinfo1_of 0 o.port (last_bit o offset)) (frameinfo1_lt o.port (last_bit o offset))

  pub frameinfo2-put :
      frameinfo2 written ≡ frameinfo2_of fragment (offset_field o offset fragment) frame
  unfolding put_fragment put_mbxheader put16 get16 copy from update offset_field
  frameinfo2-put =
      word (frameinfo2_of fragment (offset_field o offset fragment) frame)
        (frameinfo2_lt fragment (offset_field o offset fragment) frame)

  pub data-put :
      (j : ℕ) → j < fragment_size o offset → from written eoe_data j ≡ o.bytes (offset + j)
  unfolding put_fragment copy from
  data-put j h = ground arith

-- The tests that a fragment passes.
pub record Fits (port buffersize : ℕ) (mbx : Buffer) (r : Reassembly) : Type 0 where
  pub is_eoe : mbxtype mbx ≡ mbxt_eoe
  pub right_number : frag_no (frameinfo2 mbx) ≡ r.rxfragmentno
  pub enough_room : r.rxfragmentno ≡ 0 → frame_offset (frameinfo2 mbx) * 32 ≤ buffersize
  pub right_port : frame_port (frameinfo1 mbx) ≡ port
  pub right_frame : 0 < r.rxfragmentno → r.rxframeno ≡ frame_no (frameinfo2 mbx)
  pub right_place : 0 < r.rxfragmentno → r.rxframeoffset ≡ frame_offset (frameinfo2 mbx) * 32
  pub has_header : 4 ≤ get16 mbx 0

pub take_fragment-Fits :
    (port buffersize : ℕ) (mbx : Buffer) (r : Reassembly)
    → Fits port buffersize mbx r
    → take_fragment port buffersize mbx r ≡ after_data buffersize mbx (with_number mbx r)
unfolding take_fragment
take_fragment-Fits port buffersize mbx r f = ground arith

pub take_data-fits :
    (buffersize : ℕ) (mbx : Buffer) (r : Reassembly)
    → r.rxframeoffset + data_size mbx ≤ buffersize
    → take_data buffersize mbx r ≡ record r {
      buf = copy r.buf r.rxframeoffset (from mbx eoe_data) (data_size mbx);
      rxframeoffset = r.rxframeoffset + data_size mbx;
      rxfragmentno = (r.rxfragmentno + 1) % 256;
    }
unfolding take_data
take_data-fits buffersize mbx r h = ground arith
