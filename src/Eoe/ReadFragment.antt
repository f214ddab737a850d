-- ===== src/Eoe/ReadFragment.antt =====
-- The variables of a frame between two calls of `ecx_EOEreadfragment`.
use ether_cat_master.Prelude.{ℕ, ◌≤◌, ◌≡◌, arith, ◌⊎◌}
use ether_cat_master.Prelude.Int.{pos}
use ether_cat_master.Memory.{Buffer, copy}
use ether_cat_master.Eoe.{invalid_rx_data, unexpected_packet}
use ether_cat_master.Eoe.Receive.{Progress, eoe_readfragment}

-- A frame has at most 63 blocks, and what was stored lies in the frame.
abbrev pub IsInFrame : Progress → Type 0
IsInFrame p = (p.rxframeoffset ≤ p.rxframesize) × (p.rxframesize ≤ 2016)

IsInFrame-kept : (mbx : Buffer) (p : Progress) → IsInFrame p → IsInFrame (eoe_readfragment mbx p).0
unfolding eoe_readfragment
IsInFrame-kept mbx p h = ground arith

bytes_kept :
    (mbx : Buffer) (p : Progress)
    → (j : ℕ) → p.psize ≤ j
    → (eoe_readfragment mbx p).0.buf j ≡ p.buf j
unfolding eoe_readfragment copy
bytes_kept mbx p j h = ground arith

-- A call of `ecx_EOEreadfragment` keeps what was stored within the frame of at most 63 blocks, and does
-- not change a byte behind the `psize` bytes of the buffer, whatever the mailbox contains.
pub eoe_readfragment-IsInFrame :
    (mbx : Buffer) (p : Progress)
    → IsInFrame p
    → IsInFrame (eoe_readfragment mbx p).0
      × ((j : ℕ) → p.psize ≤ j → (eoe_readfragment mbx p).0.buf j ≡ p.buf j)
eoe_readfragment-IsInFrame mbx p h = (IsInFrame-kept mbx p h, bytes_kept mbx p)

-- The variables between two frames.
abbrev pub IsIdle : Progress → Type 0
IsIdle p = (p.rxfragmentno ≡ 0) × (p.rxframesize ≡ 0) × (p.rxframeoffset ≡ 0) × (p.rxframeno ≡ 0)

abbrev pub SameFrame : Progress → Progress → Type 0
SameFrame p q = (q.psize ≡ p.psize) × ((j : ℕ) → q.buf j ≡ p.buf j)

-- The results of `ecx_EOEreadfragment`: a mailbox of another protocol changes nothing; a fragment that
-- does not fit leaves the buffer and its size as they were and no frame in progress; the last fragment
-- ends the frame, and every other leaves the size.
pub eoe_readfragment_results :
    (mbx : Buffer) (p : Progress)
    → ((eoe_readfragment mbx p).1 ≡ unexpected_packet) × ((eoe_readfragment mbx p).0 ≡ p)
      ⊎ (((eoe_readfragment mbx p).1 ≡ invalid_rx_data)
            × (((eoe_readfragment mbx p).0 ≡ p) × (p.rxfragmentno ≡ 0)
                ⊎ IsIdle (eoe_readfragment mbx p).0 × SameFrame p (eoe_readfragment mbx p).0)
          ⊎ (((eoe_readfragment mbx p).1 ≡ pos 1) × IsIdle (eoe_readfragment mbx p).0
              ⊎ ((eoe_readfragment mbx p).1 ≡ pos 0)
                × ((eoe_readfragment mbx p).0.psize ≡ p.psize)))
unfolding eoe_readfragment
eoe_readfragment_results mbx p = ground arith
