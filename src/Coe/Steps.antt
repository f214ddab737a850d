-- ===== src/Coe/Steps.antt =====
-- The rounds of the loops of `ecx_SDOread` and `ecx_SDOwrite`, by what the pool and the slave do.
use ether_cat_master.Prelude.{ℕ, suc, ◌≡◌, refl, Bool, true, false, none, some}
use ether_cat_master.Memory.{Buffer}
use ether_cat_master.Mailbox.{Exchange, returns}
use ether_cat_master.Coe.{Access}
use ether_cat_master.Coe.Read
use ether_cat_master.Coe.Read.{Segments, ask_segment, read_segments}
use ether_cat_master.Coe.Write.{Download, send_segment, send_segments, finish}

module _ {S : Type 0} (x : Exchange S) (a : Access) where
  module _ (rounds maxdata : ℕ) (p : Buffer) (d : Download S) where
    pub send_segments-no_mailbox :
        (x.getmbx d.client.link).1 ≡ none
        → send_segments x a (suc rounds) maxdata p d
          ≡ returns (
              finish x a
                (record d { client = record d.client { link = (x.getmbx d.client.link).0 } }))
    unfolding send_segments
    send_segments-no_mailbox e = rw (e, send_segments) refl

    module _ (old : Buffer) (e : (x.getmbx d.client.link).1 ≡ some old) where
      abbrev pub sent : Download S × Bool
      sent = send_segment x a maxdata p (x.getmbx d.client.link).0 old d

      pub send_segments-goes_on :
          sent.1 ≡ true
          → send_segments x a (suc rounds) maxdata p d ≡ send_segments x a rounds maxdata p sent.0
      unfolding send_segments
      send_segments-goes_on more = rw (e, send_segments) (rw more refl)

      pub send_segments-ends :
          sent.1 ≡ false → send_segments x a (suc rounds) maxdata p d ≡ returns (finish x a sent.0)
      unfolding send_segments
      send_segments-ends last = rw (e, send_segments) (rw last refl)

  module _ (rounds : ℕ) (g : Segments S) (old : Buffer) where
    module _ (e : (x.getmbx g.client.link).1 ≡ some old) where
      abbrev pub asked : Segments S × Bool
      asked = ask_segment x a (x.getmbx g.client.link).0 old g

      pub read_segments-goes_on :
          asked.1 ≡ true → read_segments x a (suc rounds) g ≡ read_segments x a rounds asked.0
      unfolding read_segments
      read_segments-goes_on more = rw (e, read_segments) (rw more refl)

      pub read_segments-ends :
          asked.1 ≡ false → read_segments x a (suc rounds) g ≡ returns (Read.finish x a asked.0)
      unfolding read_segments
      read_segments-ends last = rw (e, read_segments) (rw last refl)
