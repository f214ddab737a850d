-- ===== src/Foe/Written.antt =====
-- `ecx_FOEwrite` as a whole, on a slave that takes a file in and may be busy.
use ether_cat_master.Prelude.{
  ℕ, zero, suc, ◌+◌, ◌*◌, ◌%◌, ◌<◌, ◌≤◌, ◌≡◌, ◌≢◌, refl, ◌==◌, Bool, true, false, not, arith, [],
  length, ◌⊎◌, inl, inr, ◌||◌, ap, ◌∙◌, Bool-cases,
}
use ether_cat_master.Prelude.Int.{pos, ℤ}
use ether_cat_master.Memory.{Buffer, zeros}
use ether_cat_master.Mailbox.{Mailboxes, nothing, nextmbxcnt, clearmbx, Run, returns, ec_maxmbx}
use ether_cat_master.Foe.{File, Client, maxdata, drop_if, file_request, foe_write_request}
use ether_cat_master.Foe.Sink.{FileSink, answer, replying, sink, next_reply, to_sink}
use ether_cat_master.Foe.Ready.{Ready, measure, acked, write_packet-ack}
use ether_cat_master.Foe.Resend.{advance, sent, next, send_next-sends}
use ether_cat_master.Foe.Write.{
  Writing, packet_size, send_next, write_packet, write_packets, begin, finish, foe_write,
}

-- The slave has taken the file for complete, with these bytes.
pub record Delivered (total : ℕ) (p : Buffer) (after : Client FileSink) : Type 0 where
  pub complete : after.link.complete ≡ true
  pub size : after.link.place ≡ total
  pub bytes : (j : ℕ) → j < total → after.link.value j ≡ p j

abbrev pub Delivers : ℕ → Buffer → Run (Client FileSink × ℤ) → Type 0
Delivers total p run = (c' : Client FileSink) × (run ≡ returns (c', pos 1)) × Delivered total p c'

module _ (file : File) (total : ℕ) (p : Buffer) (some_room : 0 < maxdata file)
    (small : maxdata file < 60000) (word : total < 2147483648) where
  abbrev slave : Mailboxes FileSink
  slave = to_sink (maxdata file)

  nothing_left :
      (u : Writing FileSink)
      → Ready file total p u
      → u.client.link.complete ≡ true
      → send_next slave file p u ≡ (u, false)
  unfolding send_next
  nothing_left u ready done =
      let (none_left, no_zero) = ready.finished done in
      let test : (not (packet_size file u.psize == 0) || u.dofinalzero) ≡ false =
        ground (arith, none_left, no_zero) in
      rw test refl

  kept_link : (held : Bool) (s : FileSink) → drop_if slave held s ≡ s
  kept_link true s = refl
  kept_link false s = refl

  finished-Delivered :
      (u : Writing FileSink)
      → Ready file total p u
      → u.client.link.complete ≡ true
      → Delivered total p (finish slave file p u).0
  finished-Delivered u ready done =
      let same = kept_link u.held u.client.link in
      let all : u.place ≡ total = omega (arith, ready.left, (ready.finished done).0) in
      record {
        complete = rw same done;
        size = rw same (ready.same_place ∙ all);
        bytes = λ j h. rw same (ready.same_bytes j (omega (arith, all)));
      }

  write_packets-Delivers :
      (rounds : ℕ) (w u : Writing FileSink)
      → write_packet slave file p w ≡ send_next slave file p u
      → Ready file total p u
      → measure file total p u < rounds
      → Delivers total p (write_packets slave file p rounds w)
  unfolding write_packets
  write_packets-Delivers zero w u goes ready enough = absurd (omega arith)
  write_packets-Delivers (suc rounds) w u goes ready enough =
      elim (Bool-cases u.client.link.complete) [
        | inl done ↦ (
          (finish slave file p u).0,
          rw (goes ∙ nothing_left u ready done)
              (ap (λ (k : ℤ). returns ((finish slave file p u).0, k)) ready.good),
          finished-Delivered u ready done,
        )
        | inr more ↦
            let s = sink (maxdata file) u.client.link (next file total p u) in
            let on =
              advance file total p u ready some_room small word more u.client.link.busy refl in
            let (c', ran, delivered) =
              write_packets-Delivers rounds (sent file total p u s) on.after on.ran on.still
                (omega (arith, on.less)) in
            (
              c',
              rw (goes ∙ send_next-sends file total p u ready some_room small word more) ran,
              delivered,
            )
      ]

pub request-op :
    (file : File) (cnt : ℕ) (mbx : Buffer) → file_request foe_write_request file cnt mbx 6 ≡ 2
unfolding file_request
request-op file cnt mbx = refl

-- The slave has not begun.
pub record IsFresh (s : FileSink) : Type 0 where
  pub place : s.place ≡ 0
  pub packets : s.packets ≡ 0
  pub complete : s.complete ≡ false
  pub replies : s.replies ≡ []

module _ (file : File) (psize : ℕ) (p : Buffer) (c : Client FileSink) where
  abbrev pub request : Buffer
  request = file_request foe_write_request file (nextmbxcnt c.mbx_cnt) (clearmbx zeros)

  -- The request was answered.
  abbrev opened : Writing FileSink
  opened =
      begin (to_sink (maxdata file)) file p
        (record c { link = replying c.link (answer 4 0); mbx_cnt = nextmbxcnt c.mbx_cnt })
        (nothing 0) 1 psize

  abbrev first : Writing FileSink
  first = acked file psize p opened 0

  sink-request : sink (maxdata file) c.link request ≡ replying c.link (answer 4 0)
  unfolding sink
  sink-request = rw (request-op file (nextmbxcnt c.mbx_cnt) (clearmbx zeros)) refl

  foe_write-loop :
      (rounds : ℕ)
      → c.link.replies ≡ []
      → foe_write (to_sink (maxdata file)) file p rounds psize c
        ≡ write_packets (to_sink (maxdata file)) file p rounds opened
  unfolding foe_write
  foe_write-loop rounds idle =
      rw (ap (next_reply (maxdata file) c.link) idle) (rw sink-request refl)

  first-Ready :
      IsFresh c.link
      → 0 < maxdata file
      → (psize % maxdata file ≢ 0) ⊎ (c.link.busy ≡ [])
      → Ready file psize p first
  first-Ready fresh some_room calm = record {
    same_place = fresh.place;
    left = omega arith;
    same_packets = fresh.packets;
    few = λ e. omega arith;
    same_bytes = λ j h. absurd (omega arith);
    answered_all = refl;
    good = refl;
    unfinished_end = λ e f. cc;
    finished = λ e. absurd (cc);
    calm = calm_by calm;
  }
    where
      calm_by :
          (psize % maxdata file ≢ 0) ⊎ (c.link.busy ≡ [])
          → (psize % maxdata file ≢ 0) ⊎ ((c.link.busy ≡ []) ⊎ (c.link.complete ≡ true))
      calm_by (inl odd) = inl odd
      calm_by (inr never) = inr (inl never)

  first-goes :
      IsFresh c.link
      → write_packet (to_sink (maxdata file)) file p opened
        ≡ send_next (to_sink (maxdata file)) file p first
  first-goes fresh =
      write_packet-ack file psize p opened 0 (rw fresh.replies refl) (omega arith) refl

-- A slave that takes a file in, and has not begun, gets the file whole: with
-- `2 * (psize + length busy) + 2` rounds, where `busy` is its schedule, `ecx_FOEwrite` returns the work
-- counter 1, and the slave has the `psize` bytes of `p` and has seen the end of the file, however often
-- it was busy and let a packet be sent again. The slave is never busy, or the size is not a multiple of
-- what a packet holds. The size is below 2 ^ 31, and the mailbox has 13 to 1486 bytes.
pub foe_write-Delivers :
    (file : File) (psize : ℕ) (p : Buffer) (c : Client FileSink)
    → IsFresh c.link
    → 12 < file.mbx_l
    → file.mbx_l ≤ ec_maxmbx
    → psize < 2147483648
    → (psize % maxdata file ≢ 0) ⊎ (c.link.busy ≡ [])
    → Delivers psize p
        (foe_write (to_sink (maxdata file)) file p (2 * (psize + length c.link.busy) + 2) psize c)
foe_write-Delivers file psize p c fresh room fits word calm =
    let rounds = 2 * (psize + length c.link.busy) + 2 in
    let some_room : 0 < maxdata file = omega (arith, fits) in
    let (c', ran, delivered) =
      write_packets-Delivers file psize p some_room (omega (arith, fits)) word rounds
        (opened file psize p c) (first file psize p c) (first-goes file psize p c fresh)
        (first-Ready file psize p c fresh some_room calm) (omega arith) in
    (c', foe_write-loop file psize p c rounds fresh.replies ∙ ran, delivered)
