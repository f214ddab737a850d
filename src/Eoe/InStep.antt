-- ===== src/Eoe/InStep.antt =====
-- Sender and receiver in step: where they stand in a frame, and how the receiver takes the next
-- fragment.
use ether_cat_master.Prelude.{
  ℕ, ◌+◌, ◌*◌, ◌/◌, ◌%◌, ◌<◌, ◌≤◌, ◌≡◌, refl, sym, ◌==◌, true, false, if◌then◌else◌, arith, ap, ◌∙◌,
}
use ether_cat_master.Prelude.Int.{pos}
use ether_cat_master.Memory.{Buffer, copy, from, copy-extends}
use ether_cat_master.Eoe.{
  frameinfo1, frameinfo2, eoe_data, frame_port, frag_no, frame_offset, frame_no, last_fragment,
  time_append,
}
use ether_cat_master.Eoe.Send.{Outgoing, fragment_size, is_last, offset_field}
use ether_cat_master.Eoe.Receive.{
  final_size, with_number, data_size, Reassembly, take_fragment, take_data, ends, goes_on,
}
use ether_cat_master.Eoe.Fragment.{
  Fits, take_fragment-Fits, take_data-fits, written, last_bit, room, mbxtype-put, length-put,
  frameinfo1-put, frameinfo2-put, data-put,
}

-- Where the sender stands in a frame that is not too large for the offset field: in front of fragment
-- `fragment`, at a whole number of blocks.
pub record Stands (o : Outgoing) (offset fragment : ℕ) : Type 0 where
  pub small : o.psize ≤ 2016
  pub room_for_block : 32 ≤ o.maxdata
  pub room_in_word : o.maxdata < 65532
  pub within_frame : offset ≤ o.psize
  pub whole_blocks : offset % 32 ≡ 0
  pub not_ahead : 32 * fragment ≤ offset
  pub at_start : fragment ≡ 0 → offset ≡ 0
  pub not_done : 0 < fragment → offset < o.psize

pub Stands-next :
    (o : Outgoing) (offset fragment : ℕ)
    → Stands o offset fragment
    → is_last o offset ≡ false
    → Stands o (offset + fragment_size o offset) ((fragment + 1) % 256)
      × (32 ≤ fragment_size o offset)
unfolding is_last fragment_size
Stands-next o offset fragment s h =
    let size_bound : 32 ≤ fragment_size o offset = ground arith in
    let fits : offset + fragment_size o offset < o.psize = ground arith in
    (
      record {
        small = s.small;
        room_for_block = s.room_for_block;
        room_in_word = s.room_in_word;
        within_frame = omega arith;
        whole_blocks = ground arith;
        not_ahead = omega arith;
        at_start = λ z. absurd (omega arith);
        not_done = λ z. fits;
      },
      size_bound,
    )

-- What the receiver has when it has taken all bytes in front of the offset.
pub record Holds (o : Outgoing) (offset fragment frame : ℕ) (r : Reassembly) : Type 0 where
  pub same_number : r.rxfragmentno ≡ fragment
  pub same_place : r.rxframeoffset ≡ offset
  pub same_frame : 0 < fragment → r.rxframeno ≡ frame % 16
  pub same_bytes : (j : ℕ) → j < offset → r.buf j ≡ o.bytes j

module _ (o : Outgoing) (offset fragment frame cnt buffersize : ℕ) (mbx : Buffer) (r : Reassembly)
    (stands : Stands o offset fragment) (holds : Holds o offset fragment frame r)
    (port_bound : o.port < 16) (blocks_fit : (o.psize + 31) / 32 * 32 ≤ buffersize) where
  abbrev sent : Buffer
  sent = written o offset fragment frame cnt mbx

  number-sent : frag_no (frameinfo2 sent) ≡ fragment
  number-sent =
      ap frag_no (frameinfo2-put o offset fragment frame cnt mbx)
      ∙ omega (arith, stands.not_ahead, stands.within_frame, stands.small)

  frame-sent : frame_no (frameinfo2 sent) ≡ frame % 16
  frame-sent = ap frame_no (frameinfo2-put o offset fragment frame cnt mbx) ∙ omega arith

  place-sent :
      frame_offset (frameinfo2 sent) * 32
      ≡ (if fragment == 0 then (o.psize + 31) / 32 * 32 else offset)
  unfolding offset_field
  place-sent =
      ap (λ w. frame_offset w * 32) (frameinfo2-put o offset fragment frame cnt mbx) ∙ ground arith

  port-sent : frame_port (frameinfo1 sent) ≡ o.port
  port-sent = ap frame_port (frameinfo1-put o offset fragment frame cnt mbx) ∙ omega arith

  last-sent : last_fragment (frameinfo1 sent) ≡ last_bit o offset
  last-sent = ap last_fragment (frameinfo1-put o offset fragment frame cnt mbx) ∙ ground arith

  time-sent : time_append (frameinfo1 sent) ≡ 0
  time-sent = ap time_append (frameinfo1-put o offset fragment frame cnt mbx) ∙ omega arith

  length-sent : data_size sent ≡ fragment_size o offset
  length-sent =
      omega (arith, length-put o offset fragment frame cnt mbx (room o offset stands.room_in_word))

  sent-Fits : Fits o.port buffersize sent r
  sent-Fits = record {
    is_eoe = mbxtype-put o offset fragment frame cnt mbx;
    right_number = number-sent ∙ sym holds.same_number;
    enough_room = λ z. ground (arith, place-sent, holds.same_number);
    right_port = port-sent;
    right_frame = λ z. ground (arith, frame-sent, holds.same_frame, holds.same_number);
    right_place = λ z. ground (arith, place-sent, holds.same_number, holds.same_place);
    has_header =
        omega
          (arith, length-put o offset fragment frame cnt mbx (room o offset stands.room_in_word));
  }

  stored : offset + fragment_size o offset ≤ buffersize
  unfolding fragment_size
  stored = ground (arith, stands.within_frame)

  stored_bytes :
      (j : ℕ)
      → j < offset + fragment_size o offset
      → copy r.buf r.rxframeoffset (from sent eoe_data) (data_size sent) j ≡ o.bytes j
  stored_bytes =
      rw (holds.same_place, length-sent)
        (copy-extends r.buf (from sent eoe_data) o.bytes offset (fragment_size o offset)
          holds.same_bytes (data-put o offset fragment frame cnt mbx))

  pub taken :
      Holds o
        (offset + fragment_size o offset)
        ((fragment + 1) % 256)
        frame
        (take_data buffersize sent (with_number sent r))
  taken =
      rw
        (take_data-fits buffersize sent (with_number sent r)
          (omega (arith, stored, holds.same_place, length-sent)))
        record {
          same_number = ap (λ n. (n + 1) % 256) holds.same_number;
          same_place = omega (arith, holds.same_place, length-sent);
          same_frame = λ z. ground (arith, frame-sent, holds.same_frame, holds.same_number);
          same_bytes = λ j h. stored_bytes j h;
        }

  pub final_size-sent : (r' : Reassembly) → final_size sent r' ≡ pos r'.rxframeoffset
  final_size-sent r' = rw time-sent refl

  all_taken :
      is_last o offset ≡ true
      → (take_data buffersize sent (with_number sent r)).rxframeoffset ≡ o.psize
  unfolding is_last fragment_size
  all_taken h = taken.same_place ∙ ground (arith, stands.within_frame)

  pub bytes_taken :
      is_last o offset ≡ true
      → (j : ℕ) → j < o.psize
      → (take_data buffersize sent (with_number sent r)).buf j ≡ o.bytes j
  bytes_taken h j b = taken.same_bytes j (omega (arith, taken.same_place, all_taken h))

  -- The receiver takes the fragment, and is done with the last one.
  pub take_fragment-last :
      is_last o offset ≡ true
      → take_fragment o.port buffersize sent r
        ≡ ends (pos o.psize) (take_data buffersize sent (with_number sent r))
  take_fragment-last h =
      take_fragment-Fits o.port buffersize sent r sent-Fits
      ∙ rw (last-sent, h, final_size-sent (take_data buffersize sent (with_number sent r)))
          (ap (λ (n : ℕ). ends (pos n) (take_data buffersize sent (with_number sent r)))
            (all_taken h))

  pub take_fragment-more :
      is_last o offset ≡ false
      → take_fragment o.port buffersize sent r
        ≡ goes_on (take_data buffersize sent (with_number sent r))
  take_fragment-more h =
      take_fragment-Fits o.port buffersize sent r sent-Fits ∙ rw (last-sent, h) refl
