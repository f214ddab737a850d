-- ===== src/Eoe/Steps.antt =====
-- One round of `ecx_EOErecv`, by what the fragment brings.
use ether_cat_master.Prelude.{ℕ, suc, ◌+◌, ◌≡◌, refl}
use ether_cat_master.Prelude.Int.{ℤ, pos}
use ether_cat_master.Memory.{Buffer}
use ether_cat_master.Mailbox.{Mailboxes, mailbox, returns, undefined}
use ether_cat_master.Eoe.Receive.{
  Reassembly, receive_fragments, take_fragment, ends, goes_on, refused, breaks,
}

module _ {S : Type 0} (m : Mailboxes S) (port buffersize rounds n : ℕ) (link : S) (mbx : Buffer)
    (r : Reassembly) where
  pub receive_fragments-ends :
      (size : ℤ) (r' : Reassembly)
      → take_fragment port buffersize mbx r ≡ ends size r'
      → receive_fragments m port buffersize (suc rounds) (link, mailbox n mbx) r
        ≡ returns (record { link = m.dropmbx link; wkc = pos (n + 1); psize = size; buf = r'.buf })
  unfolding receive_fragments
  receive_fragments-ends size r' h = rw (h, receive_fragments) refl

  pub receive_fragments-goes_on :
      (r' : Reassembly)
      → take_fragment port buffersize mbx r ≡ goes_on r'
      → receive_fragments m port buffersize (suc rounds) (link, mailbox n mbx) r
        ≡ receive_fragments m port buffersize rounds (m.mbxreceive (m.dropmbx link)) r'
  unfolding receive_fragments
  receive_fragments-goes_on r' h = rw (h, receive_fragments) refl

  pub receive_fragments-refused :
      (e : ℤ)
      → take_fragment port buffersize mbx r ≡ refused e
      → receive_fragments m port buffersize (suc rounds) (link, mailbox n mbx) r
        ≡ returns (record { link = m.dropmbx link; wkc = e; psize = pos buffersize; buf = r.buf })
  unfolding receive_fragments
  receive_fragments-refused e h = rw (h, receive_fragments) refl

  pub receive_fragments-breaks :
      take_fragment port buffersize mbx r ≡ breaks
      → receive_fragments m port buffersize (suc rounds) (link, mailbox n mbx) r ≡ undefined
  unfolding receive_fragments
  receive_fragments-breaks h = rw (h, receive_fragments) refl
