-- ===== src/Coe/Written.antt =====
-- `ecx_SDOwrite` as a whole, on a slave that takes an object in.
use ether_cat_master.Prelude.{
  ℕ, ◌+◌, ◌-◌, ◌/◌, ◌%◌, ◌<◌, ◌≤◌, ◌≡◌, refl, ltb, leb, Bool, true, false, if◌then◌else◌, arith, [],
  ◌∷◌, inl, not, ◌&&◌, ap, ◌∙◌, sym,
}
use ether_cat_master.Prelude.Int.{pos, ℤ}
use ether_cat_master.Memory.{Buffer, get16, get32, copy, from, zeros}
use ether_cat_master.Mailbox.{nothing, Run, returns, nextmbxcnt, clearmbx, ec_maxmbx}
use ether_cat_master.Coe.{Access, Client, subindex_sent}
use ether_cat_master.Coe.Sink.{Sink, reply, sink, sink_expedited, sink_first, to_sink, next_reply}
use ether_cat_master.Coe.Delivery.{
  Delivered, Delivers, InStep, send_segments-Delivers, transmit-sink, taken,
}
use ether_cat_master.Coe.Write.{
  Download, Reply, fine, continue, part_size, expedited_request, download_request, transmit,
  answers, begin, write_expedited, write_segmented, sdo_write, send_segments, finish,
}

module _ (a : Access) (psize cnt : ℕ) (p mbx : Buffer) where
  abbrev small_request : Buffer
  small_request = expedited_request a psize p cnt mbx

  module _ (some_bytes : 1 ≤ psize) (few : psize ≤ 4) where
    small-command :
        (small_request 8 / 32 ≡ 1)
        × (small_request 8 / 2 % 2 ≡ 1)
        × (4 - small_request 8 / 4 % 4 ≡ psize)
    unfolding expedited_request
    small-command = ground arith

    small-data : (j : ℕ) → j < psize → small_request (12 + j) ≡ p j
    unfolding expedited_request
    small-data j h = ground arith

    small-answers : a.index < 65536 → answers a.index a.subindex (reply 0x60 small_request) ≡ true
    unfolding expedited_request get16
    small-answers index_fits = ground arith

    sink-small : (s : Sink) → sink s small_request ≡ sink_expedited s small_request
    unfolding sink
    sink-small s = ground (arith, small-command)

  abbrev first_request : ℕ → Buffer
  first_request maxdata = download_request a maxdata psize p cnt mbx

  module _ (maxdata : ℕ) (suited : maxdata < 60000) (word : psize < 2147483648) where
    abbrev first_message : Buffer
    first_message = first_request maxdata

    first-command : (first_message 8 / 32 ≡ 1) × (first_message 8 / 2 % 2 ≡ 0)
    unfolding download_request
    first-command = ground arith

    first-size : get16 first_message 0 - 10 ≡ part_size maxdata psize
    unfolding download_request get16
    first-size = ground arith

    first-total : get32 first_message 12 ≡ psize
    unfolding download_request get32
    first-total = ground arith

    first-data : (j : ℕ) → j < part_size maxdata psize → first_message (16 + j) ≡ p j
    unfolding download_request
    first-data j h = ground arith

    first-answers :
        a.index < 65536 → answers a.index (subindex_sent a) (reply 0x60 first_message) ≡ true
    unfolding download_request get16
    first-answers index_fits = ground arith

    sink-first : (s : Sink) → sink s first_message ≡ sink_first s first_message
    unfolding sink
    sink-first s = ground (arith, first-command)

module _ (a : Access) (index_fits : a.index < 65536) (psize : ℕ) (p : Buffer)
    (c : Client Sink) where
  abbrev cnt : ℕ
  cnt = nextmbxcnt c.mbx_cnt

  abbrev blank : Buffer
  blank = clearmbx zeros

  abbrev replying : Sink → Client Sink
  replying s = record c { link = taken s; mbx_cnt = cnt }

  module _ (idle : c.link.replies ≡ []) (some_bytes : 1 ≤ psize) (few : psize ≤ 4) where
    abbrev small : Buffer
    small = small_request a psize cnt p blank

    small-reply : (sink c.link small).replies ≡ reply 0x60 small ∷ []
    small-reply = rw (sink-small a psize cnt p blank some_bytes few c.link) (rw idle refl)

    small-Delivered : Delivered psize p c.elist (replying (sink_expedited c.link small))
    unfolding copy from
    small-Delivered =
        let (_, _, n) = small-command a psize cnt p blank some_bytes few in
        record {
          complete = refl;
          size = n;
          bytes = λ j h. ground (arith, n, small-data a psize cnt p blank some_bytes few j h);
          no_error = refl;
        }

    small-ran :
        write_expedited to_sink a psize p (nothing 0) c.link zeros c
        ≡ (replying (sink c.link small), pos 1)
    unfolding write_expedited
    small-ran =
        rw
          (transmit-sink a (expedited_request a psize p) (answers a.index a.subindex) c.link zeros
            (begin to_sink a c (nothing 0) 0 psize) (reply 0x60 small) small-reply
            (small-answers a psize cnt p blank some_bytes few index_fits))
          refl

    small-Delivers :
        Delivers psize p c.elist
          (returns (write_expedited to_sink a psize p (nothing 0) c.link zeros c))
    small-Delivers = (
      _,
      ap returns small-ran
          ∙ ap (λ (s : Sink). returns (replying s, pos 1))
              (sink-small a psize cnt p blank some_bytes few c.link),
      small-Delivered,
    )

  module _ (mbx_l : ℕ) (idle : c.link.replies ≡ []) (room : 16 ≤ mbx_l) (fits : mbx_l ≤ ec_maxmbx)
      (word : psize < 2147483648) where
    abbrev maxdata : ℕ
    maxdata = mbx_l - 0x10

    abbrev first : Buffer
    first = first_request a psize cnt p blank maxdata

    abbrev start : Download Sink
    start =
        begin to_sink a c (nothing 0) (part_size maxdata psize) (psize - part_size maxdata psize)

    abbrev begun : Download Sink
    begun = record start { client = replying (sink_first c.link first); wkc = pos 1; held = true }

    suited : maxdata < 60000
    suited = omega (arith, fits)

    first-reply : (sink c.link first).replies ≡ reply 0x60 first ∷ []
    first-reply = rw (sink-first a psize cnt p blank maxdata suited word c.link) (rw idle refl)

    first-ran :
        transmit to_sink a
          (download_request a maxdata psize p)
          (answers a.index (subindex_sent a))
          c.link
          zeros
          start
        ≡ (begun, fine)
    first-ran =
        transmit-sink a (download_request a maxdata psize p) (answers a.index (subindex_sent a))
          c.link zeros start (reply 0x60 first) first-reply
          (first-answers a psize cnt p blank maxdata suited word index_fits)
        ∙ ap (λ (s : Sink). (record start { client = replying s; wkc = pos 1; held = true }, fine))
            (sink-first a psize cnt p blank maxdata suited word c.link)

    begun-InStep : InStep psize p begun
    unfolding copy from
    begun-InStep =
        let n = first-size a psize cnt p blank maxdata suited word in
        record {
          same_place = sym n;
          left = ground arith;
          same_toggle = refl;
          bit = inl refl;
          answered_all = refl;
          same_bytes =
              λ j h. ground (arith, n, first-data a psize cnt p blank maxdata suited word j h);
        }

    begun-Delivered : ltb maxdata psize ≡ false → Delivered psize p c.elist begun.client
    begun-Delivered whole =
        let n = first-size a psize cnt p blank maxdata suited word in
        let total = first-total a psize cnt p blank maxdata suited word in
        record {
          complete = ground (arith, n, total, whole);
          size = ground (arith, n, whole);
          bytes = λ j h. begun-InStep.same_bytes j (ground (arith, whole));
          no_error = refl;
        }

    segmented-ran :
        write_segmented to_sink a (psize / 7 + 1) mbx_l psize p (nothing 0) c.link zeros c
        ≡ continue to_sink a (psize / 7 + 1) maxdata psize p (begun, fine)
    unfolding write_segmented
    segmented-ran =
        let test : ltb mbx_l 0x10 ≡ false = ground arith in
        rw test (
          ap (λ (t : Download Sink × Reply). continue to_sink a (psize / 7 + 1) maxdata psize p t)
            first-ran)

    abbrev followed : ℕ → Bool → Run (Client Sink × ℤ)
    followed rounds more =
        if more
        then send_segments to_sink a rounds (maxdata + 7) p begun
        else returns (finish to_sink a begun)

    continue-Delivers :
        (more : Bool)
        → ltb maxdata psize ≡ more
        → Delivers psize p c.elist
            (continue to_sink a (psize / 7 + 1) maxdata psize p (begun, fine))
    continue-Delivers true e =
        let (c', ran, delivered) =
          send_segments-Delivers a (maxdata + 7) psize p (omega arith) (omega (arith, fits))
            (psize / 7 + 1) begun begun-InStep (omega arith) in
        (c', ap (followed (psize / 7 + 1)) e ∙ ran, delivered)
    continue-Delivers false e = (begun.client, ap (followed (psize / 7 + 1)) e, begun-Delivered e)

    segmented-Delivers :
        Delivers psize p c.elist
          (write_segmented to_sink a (psize / 7 + 1) mbx_l psize p (nothing 0) c.link zeros c)
    segmented-Delivers =
        let (c', ran, delivered) = continue-Delivers _ refl in (c', segmented-ran ∙ ran, delivered)

-- On a slave that follows the protocol of downloads and has no response waiting, `ecx_SDOwrite` with
-- `psize / 7 + 1` rounds returns the work counter 1: the slave has then taken the object for complete,
-- with `psize` bytes that are those of `p`, and the error list is as before. An object has a byte at
-- least and less than 2 ^ 31, and the mailbox of the slave has 16 to 1486 bytes.
pub sdo_write-Delivers :
    (a : Access) (mbx_l psize : ℕ) (p : Buffer) (c : Client Sink)
    → a.index < 65536
    → c.link.replies ≡ []
    → 16 ≤ mbx_l
    → mbx_l ≤ ec_maxmbx
    → 1 ≤ psize
    → psize < 2147483648
    → Delivers psize p c.elist (sdo_write to_sink a (psize / 7 + 1) mbx_l psize p c)
unfolding sdo_write
sdo_write-Delivers a mbx_l psize p c index_fits idle room fits some_bytes word =
    rw (ap (next_reply c.link) idle) (short (leb psize 4 && not a.ca) refl)
  where
    short :
        (b : Bool)
        → (leb psize 4 && not a.ca) ≡ b
        → Delivers psize p c.elist (
            if leb psize 4 && not a.ca
            then returns (write_expedited to_sink a psize p (nothing 0) c.link zeros c)
            else write_segmented to_sink a (psize / 7 + 1) mbx_l psize p (nothing 0) c.link zeros c)
    short true e = rw e (small-Delivers a index_fits psize p c idle some_bytes (ground arith))
    short false e = rw e (segmented-Delivers a index_fits psize p c mbx_l idle room fits word)
