-- ===== src/Coe/Delivery.antt =====
-- `ecx_SDOwrite` on a slave that takes an object in.
use ether_cat_master.Prelude.{
  ℕ, zero, suc, ◌+◌, ◌-◌, ◌*◌, ◌/◌, ◌%◌, ◌<◌, ◌≤◌, ◌≡◌, refl, ltb, Bool, true, false, if◌then◌else◌,
  arith, [], ◌∷◌, ◌⊎◌, inl, inr, ap, ◌∙◌, sym, Bool-cases,
}
use ether_cat_master.Prelude.Int.{pos, ℤ}
use ether_cat_master.Memory.{Buffer, get16, copy, from, zeros, copy-extends}
use ether_cat_master.Mailbox.{mailbox, Run, returns, nextmbxcnt, clearmbx, drop_held}
use ether_cat_master.Master.Errors.{ErrorRing}
use ether_cat_master.Coe.{Access, Client, toggled}
use ether_cat_master.Coe.Sink.{Sink, reply, sink, sink_segment, segment_bytes, to_sink, next_reply}
use ether_cat_master.Coe.Steps.{send_segments-goes_on, send_segments-ends}
use ether_cat_master.Coe.Write.{
  Download, fine, part_size, segment_message, transmit, send_segment, send_segments, accepted,
  is_segment_response, finish,
}

abbrev pub IsBit : ℕ → Type 0
IsBit toggle = (toggle ≡ 0) ⊎ (toggle ≡ 16)

-- What the slave reads in a segment.
module _ (toggle maxdata psize cnt : ℕ) (p mbx : Buffer) where
  abbrev message : Buffer
  message = segment_message toggle maxdata psize p cnt mbx

  module _ (bit : IsBit toggle) (small : maxdata < 60000) where
    message-command :
        (message 8 / 32 ≡ 0)
        × (message 8 / 16 % 2 * 16 ≡ toggle)
        × (message 8 % 2 ≡ (if ltb maxdata psize then 0 else 1))
    unfolding segment_message
    message-command = ground arith

    message-size : 7 ≤ maxdata → segment_bytes message ≡ part_size maxdata psize
    unfolding segment_message get16
    message-size room = ground arith

    message-data : (j : ℕ) → j < part_size maxdata psize → message (9 + j) ≡ p j
    unfolding segment_message
    message-data j h = ground arith

-- The exchange: what comes back is the reply of the slave.
abbrev pub taken : Sink → Sink
taken s = record s { replies = [] }

answered :
    (s : Sink) (r : Buffer) → s.replies ≡ r ∷ [] → next_reply s s.replies ≡ (taken s, mailbox 0 r)
answered s r e = ap (next_reply s) e

kept : (held : Bool) (s : Sink) → drop_held to_sink held s ≡ s
kept true s = refl
kept false s = refl

module _ (a : Access) (build : ℕ → Buffer → Buffer) (test : Buffer → Bool) (link : Sink)
    (old : Buffer) (d : Download Sink) where
  abbrev pub request : Buffer
  request = build (nextmbxcnt d.client.mbx_cnt) (clearmbx old)

  abbrev pub replied : Download Sink
  replied = accepted to_sink a 0 (record d {
    client = record d.client {
      link = taken (sink link request);
      mbx_cnt = nextmbxcnt d.client.mbx_cnt;
    };
  })

  pub transmit-sink :
      (r : Buffer)
      → (sink link request).replies ≡ r ∷ []
      → test r ≡ true
      → transmit to_sink a build test link old d ≡ (replied, fine)
  unfolding transmit
  transmit-sink r e good =
      rw (kept d.held (sink link request)) (rw (answered (sink link request) r e) (rw good refl))

-- Sender and slave in the middle of an object.
pub record InStep (total : ℕ) (p : Buffer) (d : Download Sink) : Type 0 where
  pub same_place : d.hp ≡ d.client.link.place
  pub left : d.hp + d.psize ≡ total
  pub same_toggle : d.client.link.toggle ≡ d.toggle
  pub bit : IsBit d.toggle
  pub answered_all : d.client.link.replies ≡ []
  pub same_bytes : (j : ℕ) → j < d.hp → d.client.link.value j ≡ p j

module _ (a : Access) (maxdata total : ℕ) (p old : Buffer) (d : Download Sink) where
  abbrev segment : Buffer
  segment =
      segment_message d.toggle maxdata d.psize (from p d.hp) (nextmbxcnt d.client.mbx_cnt)
        (clearmbx old)

  module _ (step : InStep total p d) (room : 7 ≤ maxdata) (small : maxdata < 60000) where
    sink-segment : sink d.client.link segment ≡ sink_segment d.client.link segment
    unfolding sink
    sink-segment =
        let cmd =
          message-command d.toggle maxdata d.psize (nextmbxcnt d.client.mbx_cnt) (from p d.hp)
            (clearmbx old) step.bit small in
        ground (arith, cmd, step.same_toggle)

    size : segment_bytes segment ≡ part_size maxdata d.psize
    size =
        message-size d.toggle maxdata d.psize (nextmbxcnt d.client.mbx_cnt) (from p d.hp)
          (clearmbx old) step.bit small room

    abbrev next_client : Client Sink
    next_client = record d.client {
      link = taken (sink_segment d.client.link segment);
      mbx_cnt = nextmbxcnt d.client.mbx_cnt;
    }

    abbrev after_segment : Download Sink
    after_segment = record {
      client = next_client;
      wkc = pos 1;
      hp = d.hp + part_size maxdata d.psize;
      psize = d.psize - part_size maxdata d.psize;
      toggle = toggled d.toggle;
      held = true;
    }

    segment-reply :
        (sink d.client.link segment).replies ≡ reply (0x20 + d.client.link.toggle) segment ∷ []
    segment-reply = rw sink-segment (rw step.answered_all refl)

    reply_fits : is_segment_response (reply (0x20 + d.client.link.toggle) segment) ≡ true
    unfolding get16
    reply_fits = ground (arith, step.same_toggle, step.bit)

    send_segment-sink :
        send_segment to_sink a maxdata p d.client.link old d ≡ (after_segment, ltb maxdata d.psize)
    unfolding send_segment
    send_segment-sink =
        rw
          (transmit-sink a (segment_message d.toggle maxdata d.psize (from p d.hp))
            is_segment_response d.client.link old d (reply (0x20 + d.client.link.toggle) segment)
            segment-reply reply_fits)
          (rw sink-segment refl)

    stored_bytes :
        (j : ℕ)
        → j < d.hp + part_size maxdata d.psize
        → copy d.client.link.value d.client.link.place (from segment 9) (segment_bytes segment) j
          ≡ p j
    unfolding from
    stored_bytes j h = rw size (
        rw (← step.same_place) (
          copy-extends d.client.link.value (from segment 9) p d.hp (part_size maxdata d.psize)
            step.same_bytes
            (message-data d.toggle maxdata d.psize (nextmbxcnt d.client.mbx_cnt) (from p d.hp)
              (clearmbx old) step.bit small)
            j h))

    after_segment-InStep : InStep total p after_segment
    after_segment-InStep = record {
      same_place = omega (arith, size, step.same_place);
      left = ground (arith, step.left);
      same_toggle = ground (arith, step.same_toggle, step.bit);
      bit = ground (arith, step.bit);
      answered_all = refl;
      same_bytes = stored_bytes;
    }

    segment-complete :
        ltb maxdata d.psize ≡ false → (sink_segment d.client.link segment).complete ≡ true
    segment-complete last =
        let cmd =
          message-command d.toggle maxdata d.psize (nextmbxcnt d.client.mbx_cnt) (from p d.hp)
            (clearmbx old) step.bit small in
        ground (arith, cmd.2, last)

    whole : ltb maxdata d.psize ≡ false → d.hp + part_size maxdata d.psize ≡ total
    whole last = ground (arith, step.left, last)

-- The slave has the object, and the master has no new error.
pub record Delivered (total : ℕ) (p : Buffer) (elist : ErrorRing) (after : Client Sink)
    : Type 0 where
  pub complete : after.link.complete ≡ true
  pub size : after.link.place ≡ total
  pub bytes : (j : ℕ) → j < total → after.link.value j ≡ p j
  pub no_error : after.elist ≡ elist

abbrev pub Delivers : ℕ → Buffer → ErrorRing → Run (Client Sink × ℤ) → Type 0
Delivers total p elist run =
    (c' : Client Sink) × (run ≡ returns (c', pos 1)) × Delivered total p elist c'

module _ (a : Access) (maxdata total : ℕ) (p : Buffer) (room : 7 ≤ maxdata)
    (small : maxdata < 60000) where
  last-Delivered :
      (d : Download Sink) (step : InStep total p d)
      → ltb maxdata d.psize ≡ false
      → Delivered total p d.client.elist
          (after_segment a maxdata total p zeros d step room small).client
  last-Delivered d step last =
      let done = after_segment-InStep a maxdata total p zeros d step room small in
      let all = whole a maxdata total p zeros d step room small last in
      record {
        complete = segment-complete a maxdata total p zeros d step room small last;
        size = sym done.same_place ∙ all;
        bytes = λ j h. done.same_bytes j (omega (arith, all));
        no_error = refl;
      }

  pub send_segments-Delivers :
      (rounds : ℕ) (d : Download Sink)
      → InStep total p d
      → d.psize < 7 * rounds
      → Delivers total p d.client.elist (send_segments to_sink a rounds maxdata p d)
  send_segments-Delivers zero d step enough = absurd (omega arith)
  send_segments-Delivers (suc rounds) d step enough =
      let ran = send_segment-sink a maxdata total p zeros d step room small in
      let next = after_segment a maxdata total p zeros d step room small in
      elim (Bool-cases (ltb maxdata d.psize)) [
        | inl more ↦
            let (c', rest, delivered) =
              send_segments-Delivers rounds next
                (after_segment-InStep a maxdata total p zeros d step room small)
                (ground (arith, more)) in
            (
              c',
              send_segments-goes_on to_sink a rounds maxdata p d zeros refl
                    (ap (λ (t : Download Sink × Bool). t.1) ran ∙ more)
                  ∙ ap (λ (t : Download Sink × Bool). send_segments to_sink a rounds maxdata p t.0)
                      ran
                  ∙ rest,
              delivered,
            )
        | inr last ↦ (
          next.client,
          send_segments-ends to_sink a rounds maxdata p d zeros refl
                (ap (λ (t : Download Sink × Bool). t.1) ran ∙ last)
              ∙ ap (λ (t : Download Sink × Bool). returns (finish to_sink a t.0)) ran,
          last-Delivered d step last,
        )
      ]
