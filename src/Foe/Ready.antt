-- ===== src/Foe/Ready.antt =====
-- Messages between `ecx_FOEwrite` and a slave that may be busy: what each reads, and when the next packet
-- may go out.
use ether_cat_master.Prelude.{
  ℕ, ◌+◌, ◌-◌, ◌*◌, ◌%◌, ◌<◌, ◌≤◌, ◌≡◌, ◌≢◌, refl, ◌==◌, Bool, true, false, if◌then◌else◌, arith,
  [], ◌∷◌, length, ◌⊎◌, ap, ◌∙◌,
}
use ether_cat_master.Prelude.Int.{pos}
use ether_cat_master.Memory.{Buffer, get16, get32}
use ether_cat_master.Mailbox.{Mailboxes, mailbox, mbxtype}
use ether_cat_master.Foe.{File, maxdata, opcode, number_of, reported, drop_if}
use ether_cat_master.Foe.Sink.{FileSink, answer, next_reply, to_sink}
use ether_cat_master.Foe.Write.{
  Writing, data_message, send_next, take_ack, take_busy, take_response, write_packet,
}

-- What the slave reads in a packet.
module _ (number size cnt : ℕ) (p mbx : Buffer) where
  abbrev pub packet : Buffer
  packet = data_message number size p cnt mbx

  pub packet-op : packet 6 ≡ 3
  unfolding data_message
  packet-op = refl

  pub packet-number : number < 4294967296 → get32 packet 8 ≡ number
  unfolding data_message get32
  packet-number h = ground arith

  pub packet-size : size < 60000 → get16 packet 0 - 6 ≡ size
  unfolding data_message get16
  packet-size h = ground arith

  pub packet-data : (j : ℕ) → j < size → packet (12 + j) ≡ p j
  unfolding data_message
  packet-data j h = ground arith

-- What the master reads in a response.
answer-foe : (op number : ℕ) → (mbxtype (answer op number) ≡ 4) × (opcode (answer op number) ≡ op)
unfolding answer
answer-foe op number = (refl, refl)

answer-number : (op number : ℕ) → number < 4294967296 → number_of (answer op number) ≡ number
unfolding answer get32
answer-number op number h = ground arith

module _ (file : File) (total : ℕ) (p : Buffer) where
  abbrev pub full : ℕ
  full = maxdata file

  abbrev pub slave : Mailboxes FileSink
  slave = to_sink full

  -- The next packet may go out: what was accepted is what was sent.
  pub record Ready (u : Writing FileSink) : Type 0 where
    pub same_place : u.client.link.place ≡ u.place
    pub left : u.place + u.psize ≡ total
    pub same_packets : u.client.link.packets ≡ u.sendpacket
    pub few : u.client.link.complete ≡ false → u.sendpacket ≤ u.place
    pub same_bytes : (j : ℕ) → j < u.place → u.client.link.value j ≡ p j
    pub answered_all : u.client.link.replies ≡ []
    pub good : u.wkc ≡ pos 1
    pub unfinished_end : u.psize ≡ 0 → u.dofinalzero ≡ false → u.client.link.complete ≡ true
    pub finished : u.client.link.complete ≡ true → (u.psize ≡ 0) × (u.dofinalzero ≡ false)
    pub calm : (u.psize % full ≢ 0) ⊎ ((u.client.link.busy ≡ []) ⊎ (u.client.link.complete ≡ true))

  -- It falls with every packet that is sent, and with every one that is passed over.
  abbrev pub measure : Writing FileSink → ℕ
  measure u = 2 * u.psize + 2 * length u.client.link.busy + (if u.dofinalzero then 1 else 0)

  -- What the master does with a response.
  abbrev taken : FileSink → FileSink
  taken s = record s { replies = [] }

  answered :
      (s : FileSink) (r : Buffer)
      → s.replies ≡ r ∷ []
      → next_reply full s s.replies ≡ (taken s, mailbox 0 r)
  answered s r e = ap (next_reply full s) e

  kept : (held : Bool) (s : FileSink) → drop_if slave held s ≡ s
  kept true s = refl
  kept false s = refl

  module _ (w : Writing FileSink) where
    abbrev responded : Writing FileSink
    responded = record w {
      client = record w.client { link = taken w.client.link };
      wkc = pos 1;
      held = true;
    }

    abbrev pub acked : ℕ → Writing FileSink
    acked number = record responded {
      client = record responded.client {
        reports = reported file.hook number w.psize w.client.reports;
      };
    }

    abbrev pub taken_back : Writing FileSink
    taken_back = record responded {
      psize = w.psize + w.segmentdata;
      place = w.place - w.segmentdata;
      sendpacket = w.sendpacket - 1;
    }

    write_packet-response :
        (r : Buffer)
        → w.client.link.replies ≡ r ∷ []
        → write_packet slave file p w
          ≡ take_response slave file p
              (mailbox 0 r)
              (record w { client = record w.client { link = taken w.client.link } })
    unfolding write_packet
    write_packet-response r e =
        rw (kept w.held w.client.link) (rw (answered w.client.link r e) refl)

    pub write_packet-ack :
        (number : ℕ)
        → w.client.link.replies ≡ answer 4 number ∷ []
        → number < 4294967296
        → number ≡ w.sendpacket
        → write_packet slave file p w ≡ send_next slave file p (acked number)
    unfolding take_response take_ack
    write_packet-ack number e word same =
        let n = answer-number 4 number word in
        let test : (number == w.sendpacket) ≡ true = ground (arith, same) in
        write_packet-response (answer 4 number) e
        ∙ rw ((answer-foe 4 number).0) (rw ((answer-foe 4 number).1) (rw n (rw test refl)))

    pub write_packet-busy :
        w.client.link.replies ≡ answer 6 0 ∷ []
        → 0 < w.sendpacket
        → write_packet slave file p w ≡ send_next slave file p taken_back
    unfolding take_response take_busy
    write_packet-busy e some_sent =
        let test : (w.sendpacket == 0) ≡ false = ground arith in
        write_packet-response (answer 6 0) e
        ∙ rw ((answer-foe 6 0).0) (rw ((answer-foe 6 0).1) (rw test refl))
