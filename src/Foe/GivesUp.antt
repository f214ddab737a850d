-- ===== src/Foe/GivesUp.antt =====
-- `ecx_FOEwrite` and a slave that is busy when the file is announced.
use ether_cat_master.Prelude.{ℕ, suc, ◌≡◌, refl, ◌==◌, if◌then◌else◌, ap, List, [], ◌∷◌}
use ether_cat_master.Prelude.Int.{pos}
use ether_cat_master.Memory.{Buffer, zeros}
use ether_cat_master.Mailbox.{Mailboxes, nothing, nextmbxcnt, clearmbx, returns}
use ether_cat_master.Foe.{File, Client, maxdata}
use ether_cat_master.Foe.Sink.{FileSink, answer, sink, next_reply}
use ether_cat_master.Foe.Written.{request, request-op}
use ether_cat_master.Foe.Write.{
  Writing, take_busy, take_response, write_packet, write_packets, begin, foe_write,
}

module _ (full : ℕ) (later : List Buffer) where
  -- The slave says that it is busy when a file is announced, and gives the answers `later` after that.
  -- Otherwise it is a slave that takes a file in.
  unfoldable pub slow_sink : FileSink → Buffer → FileSink
  slow_sink s mbx =
      if mbx 6 == 2 then record s { replies = answer 6 0 ∷ later } else sink full s mbx

  abbrev pub to_slow_sink : Mailboxes FileSink
  to_slow_sink = record {
    getmbx = λ s. (s, zeros);
    dropmbx = λ s. s;
    mbxsend = λ s mbx. (slow_sink s mbx, 1);
    mbxreceive = λ s. next_reply full s s.replies;
  }

module _ (file : File) (later : List Buffer) (p : Buffer) (psize : ℕ) (c : Client FileSink) where
  abbrev slave : Mailboxes FileSink
  slave = to_slow_sink (maxdata file) later

  abbrev told : FileSink
  told = record c.link { replies = answer 6 0 ∷ later }

  abbrev opened : Writing FileSink
  opened =
      begin slave file p (record c { link = told; mbx_cnt = nextmbxcnt c.mbx_cnt }) (nothing 0) 1
        psize

  abbrev given_up : Client FileSink
  given_up = record c { link = record c.link { replies = later }; mbx_cnt = nextmbxcnt c.mbx_cnt }

  slow_sink-request : slow_sink (maxdata file) later c.link (request file psize p c) ≡ told
  unfolding slow_sink
  slow_sink-request = rw (request-op file (nextmbxcnt c.mbx_cnt) (clearmbx zeros)) refl

  opened-stops :
      (rounds : ℕ) → write_packets slave file p (suc rounds) opened ≡ returns (given_up, pos 1)
  unfolding write_packets write_packet take_response take_busy answer
  opened-stops rounds = refl

  -- A slave that is busy when a file is announced, and gives any answers after that: `ecx_FOEwrite`
  -- returns the work counter 1 as for a file that was written, but the slave has got no packet and none
  -- of the bytes, and the answers that follow are not read.
  pub foe_write_gives_up :
      (rounds : ℕ)
      → c.link.replies ≡ []
      → (c' : Client FileSink) × (foe_write
            (to_slow_sink (maxdata file) later)
            file
            p
            (suc rounds)
            psize
            c
          ≡ returns (c', pos 1))
        × (c'.link.packets ≡ c.link.packets)
        × (c'.link.complete ≡ c.link.complete)
        × (c'.link.value ≡ c.link.value)
        × (c'.link.replies ≡ later)
  unfolding foe_write
  foe_write_gives_up rounds idle = (
    given_up,
    rw (ap (next_reply (maxdata file) c.link) idle) (rw slow_sink-request (opened-stops rounds)),
    refl,
    refl,
    refl,
    refl,
  )
