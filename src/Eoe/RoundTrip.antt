-- ===== src/Eoe/RoundTrip.antt =====
-- `ecx_EOEsend` and `ecx_EOErecv` together.
use ether_cat_master.Prelude.{
  ℕ, zero, suc, ◌+◌, ◌*◌, ◌/◌, ◌%◌, ◌<◌, ◌≤◌, ◌≡◌, refl, ltb, true, false, arith, Bool-cases, inl,
  inr, ap, ◌∙◌, List, [], ◌++◌,
}
use ether_cat_master.Prelude.Int.{pos}
use ether_cat_master.Memory.{Buffer, zeros}
use ether_cat_master.Mailbox.{ec_maxmbx, returns, nextmbxcnt, clearmbx}
use ether_cat_master.Eoe.Send.{
  outgoing, Sender, Outgoing, fragment_size, is_last, put_fragment, eoe_send,
}
use ether_cat_master.Eoe.Receive.{
  Received, Reassembly, receive_fragments, eoe_recv, take_data, with_number,
}
use ether_cat_master.Eoe.Steps.{receive_fragments-ends, receive_fragments-goes_on}
use ether_cat_master.Eoe.InStep.{
  Stands, Stands-next, Holds, taken, bytes_taken, take_fragment-last, take_fragment-more,
}
use ether_cat_master.Eoe.Wire.{wire, take_first, fragments, Enough, send_fragments-wire}

module _ (o : Outgoing) (buffersize : ℕ) (port_bound : o.port < 16)
    (blocks_fit : (o.psize + 31) / 32 * 32 ≤ buffersize) where
  abbrev next_reassembly : ℕ → ℕ → ℕ → ℕ → Reassembly → Reassembly
  next_reassembly offset fragment frame cnt r =
      let mbx = put_fragment o offset fragment frame (nextmbxcnt cnt) (clearmbx zeros) in
      take_data buffersize mbx (with_number mbx r)

  -- A received frame: the work counter of one mailbox, the size and the bytes, and no mailbox left.
  abbrev Whole : Received (List Buffer) → Type 0
  Whole got =
      (got.link ≡ [])
      × (got.wkc ≡ pos 1)
      × (got.psize ≡ pos o.psize)
      × ((j : ℕ) → j < o.psize → got.buf j ≡ o.bytes j)

  abbrev Receives : ℕ → ℕ → ℕ → ℕ → ℕ → Reassembly → Type 0
  Receives rounds offset fragment frame cnt r =
      (got : Received (List Buffer)) × (receive_fragments wire o.port buffersize rounds
          (take_first (fragments rounds o offset fragment frame cnt)) r
        ≡ returns got)
      × Whole got

  Receives-last :
      (rounds offset fragment frame cnt : ℕ) (r : Reassembly)
      → Stands o offset fragment
      → Holds o offset fragment frame r
      → is_last o offset ≡ true
      → Receives (suc rounds) offset fragment frame cnt r
  unfolding fragments
  Receives-last rounds offset fragment frame cnt r stands holds e =
      let mbx = put_fragment o offset fragment frame (nextmbxcnt cnt) (clearmbx zeros) in
      rw e (
        (
          _,
          receive_fragments-ends wire o.port buffersize rounds 0 [] mbx r (pos o.psize)
              (next_reassembly offset fragment frame cnt r)
              (take_fragment-last o offset fragment frame (nextmbxcnt cnt) buffersize
                (clearmbx zeros) r stands holds port_bound blocks_fit e),
          (
            refl,
            refl,
            refl,
            bytes_taken o offset fragment frame (nextmbxcnt cnt) buffersize (clearmbx zeros) r
                stands holds port_bound blocks_fit e,
          ),
        ))

  Receives-more :
      (rounds offset fragment frame cnt : ℕ) (r : Reassembly)
      → Stands o offset fragment
      → Holds o offset fragment frame r
      → is_last o offset ≡ false
      → Receives rounds
          (offset + fragment_size o offset)
          ((fragment + 1) % 256)
          frame
          (nextmbxcnt cnt)
          (next_reassembly offset fragment frame cnt r)
      → Receives (suc rounds) offset fragment frame cnt r
  unfolding fragments
  Receives-more rounds offset fragment frame cnt r stands holds e (got, ran, whole) =
      let mbx = put_fragment o offset fragment frame (nextmbxcnt cnt) (clearmbx zeros) in
      let rest =
        fragments rounds o (offset + fragment_size o offset) ((fragment + 1) % 256) frame
          (nextmbxcnt cnt) in
      rw e (
        (
          got,
          receive_fragments-goes_on wire o.port buffersize rounds 0 rest mbx r
                (next_reassembly offset fragment frame cnt r)
                (take_fragment-more o offset fragment frame (nextmbxcnt cnt) buffersize
                  (clearmbx zeros) r stands holds port_bound blocks_fit e)
              ∙ ran,
          whole,
        ))

  receive_fragments-wire :
      (rounds offset fragment frame cnt : ℕ) (r : Reassembly)
      → Stands o offset fragment
      → Enough rounds o offset
      → Holds o offset fragment frame r
      → Receives rounds offset fragment frame cnt r
  receive_fragments-wire zero offset fragment frame cnt r stands enough holds = absurd (omega arith)
  receive_fragments-wire (suc rounds) offset fragment frame cnt r stands enough holds =
      elim (Bool-cases (is_last o offset)) [
        | inl e ↦ Receives-last rounds offset fragment frame cnt r stands holds e
        | inr e ↦
            let (stands', size_bound) = Stands-next o offset fragment stands e in
            Receives-more rounds offset fragment frame cnt r stands holds e (
              receive_fragments-wire rounds (offset + fragment_size o offset) ((fragment + 1) % 256)
                frame (nextmbxcnt cnt) (next_reassembly offset fragment frame cnt r) stands'
                (omega (arith, stands'.within_frame))
                (taken o offset fragment frame (nextmbxcnt cnt) buffersize (clearmbx zeros) r stands
                  holds port_bound blocks_fit))
      ]

abbrev blank : Buffer → Reassembly
blank buf = record { rxfragmentno = 0; rxframeno = 0xff; rxframeoffset = 0; buf = buf }

Stands-start :
    (mbx_l port psize : ℕ) (p : Buffer)
    → 42 ≤ mbx_l
    → mbx_l ≤ ec_maxmbx
    → psize ≤ 2016
    → Stands (outgoing mbx_l port psize p) 0 0
Stands-start mbx_l port psize p suited fits_word small = record {
  small = small;
  room_for_block = omega arith;
  room_in_word = omega arith;
  within_frame = omega arith;
  whole_blocks = refl;
  not_ahead = omega arith;
  at_start = λ z. refl;
  not_done = λ z. absurd (omega arith);
}

Holds-start : (o : Outgoing) (frame : ℕ) (buf : Buffer) → Holds o 0 0 frame (blank buf)
Holds-start o frame buf = record {
  same_number = refl;
  same_place = refl;
  same_frame = λ z. absurd (omega arith);
  same_bytes = λ j h. absurd (omega arith);
}

-- A frame of at most 2016 bytes goes to a slave with a mailbox of 42 to 1486 bytes and comes back
-- from a slave that returns the mailboxes in order: with `psize / 32 + 1` rounds `ecx_EOEsend` returns
-- the work counter 1, and `ecx_EOErecv` on these mailboxes returns 1, the size and the bytes of the
-- frame and leaves no mailbox. The buffer has room for the frame in whole blocks of 32 bytes, and the
-- port is below 16.
pub eoe_recv-eoe_send :
    (mbx_l port psize buffersize : ℕ) (p buf : Buffer) (s : Sender (List Buffer))
    → s.link ≡ []
    → 42 ≤ mbx_l
    → mbx_l ≤ ec_maxmbx
    → port < 16
    → psize ≤ 2016
    → (psize + 31) / 32 * 32 ≤ buffersize
    → (s' : Sender (List Buffer)) × (got : Received (List Buffer)) × (eoe_send wire
          (psize / 32 + 1)
          mbx_l
          port
          psize
          p
          s
        ≡ returns (s', pos 1))
      × (eoe_recv wire port buffersize (psize / 32 + 1) buf s'.link ≡ returns got)
      × (got.link ≡ [])
      × (got.wkc ≡ pos 1)
      × (got.psize ≡ pos psize)
      × ((j : ℕ) → j < psize → got.buf j ≡ p j)
unfolding eoe_send eoe_recv
eoe_recv-eoe_send mbx_l port psize buffersize p buf s empty suited fits_word port_bound small room =
    let o = outgoing mbx_l port psize p in
    let frame = (s.txframeno + 1) % 256 in
    let stands = Stands-start mbx_l port psize p suited fits_word small in
    let (s', ran, linked) =
      send_fragments-wire (psize / 32 + 1) o 0 0 frame s stands (omega arith) refl in
    let (got, received, (left, wkc, size, bytes)) =
      receive_fragments-wire o buffersize port_bound room (psize / 32 + 1) 0 0 frame s.mbx_cnt
        (blank buf) stands (omega arith) (Holds-start o frame buf) in
    let test : ltb mbx_l 0x0a ≡ false = ground arith in
    let on_wire =
      linked
      ∙ ap (λ (xs : List Buffer). xs ++ fragments (psize / 32 + 1) o 0 0 frame s.mbx_cnt) empty in
    (
      s',
      got,
      rw test ran,
      ap
            (λ (xs : List Buffer).
              receive_fragments wire port buffersize (psize / 32 + 1) (take_first xs) (blank buf))
            on_wire
          ∙ received,
      left,
      wkc,
      size,
      bytes,
    )
