-- ===== src/Coe/Ends.antt =====
-- How long `ecx_SDOwrite` and `ecx_SDOread` go on.
use ether_cat_master.Prelude.{
  ℕ, zero, suc, ◌+◌, ◌-◌, ◌*◌, ◌/◌, ◌%◌, ◌<◌, ◌≤◌, ◌≡◌, refl, some, ltb, leb, not, ◌&&◌, Bool, true,
  false, arith, Bool-cases, inl, inr, ◌⊎◌, Option-cases, ◌∙◌,
}
use ether_cat_master.Prelude.Int.{ℤ}
use ether_cat_master.Memory.{Buffer, get32}
use ether_cat_master.Mailbox.{Exchange, Reception, Run, returns, unfinished, nextmbxcnt}
use ether_cat_master.Coe.{Access, Client, is_response, index_of, command, sdo_data}
use ether_cat_master.Coe.Steps.{
  sent, asked, read_segments-goes_on, send_segments-no_mailbox, send_segments-goes_on,
  send_segments-ends,
}
use ether_cat_master.Coe.Read.{
  Segments, segment_request, ask_segment, read_segments, take_object, first_segment, frame_size,
}
use ether_cat_master.Coe.Write.{
  Download, Reply, silent, fine, wrong, part_size, transmit, send_segment, send_segments,
  write_segmented, continue, sdo_write,
}

module _ {S : Type 0} (x : Exchange S) (a : Access) where
  abbrev pub Returns : Run (Client S × ℤ) → Type 0
  Returns run = (result : Client S × ℤ) × (run ≡ returns result)

  send_segment-psize :
      (maxdata : ℕ) (p : Buffer) (link : S) (old : Buffer) (d : Download S)
      → (send_segment x a maxdata p link old d).0.psize ≡ d.psize - part_size maxdata d.psize
  unfolding send_segment
  send_segment-psize maxdata p link old d = refl

  -- Another segment follows only where data are left.
  send_segment-more :
      (maxdata : ℕ) (p : Buffer) (link : S) (old : Buffer) (d : Download S)
      → (send_segment x a maxdata p link old d).1 ≡ true
      → maxdata < d.psize
  unfolding send_segment
  send_segment-more maxdata p link old d h = ground arith

  send_segments-Returns :
      (rounds maxdata : ℕ) (p : Buffer) (d : Download S)
      → 7 ≤ maxdata
      → d.psize < 7 * rounds
      → Returns (send_segments x a rounds maxdata p d)
  unfolding send_segments
  send_segments-Returns zero maxdata p d room enough = absurd (omega arith)
  send_segments-Returns (suc rounds) maxdata p d room enough =
      elim (Option-cases (x.getmbx d.client.link).1) [
        | inl e ↦ (_, send_segments-no_mailbox x a rounds maxdata p d e)
        | inr (old, e) ↦
            let now = sent x a rounds maxdata p d old e in
            elim (Bool-cases now.1) [
              | inl m ↦
                  let (result, ran) = send_segments-Returns rounds maxdata p now.0 room (
                    ground (
                      arith,
                      send_segment-psize maxdata p (x.getmbx d.client.link).0 old d,
                      send_segment-more maxdata p (x.getmbx d.client.link).0 old d m,
                    )) in
                  (result, send_segments-goes_on x a rounds maxdata p d old e m ∙ ran)
              | inr m ↦ (_, send_segments-ends x a rounds maxdata p d old e m)
            ]
      ]

  continue-Returns :
      (rounds maxdata psize : ℕ) (p : Buffer) (d : Download S) (reply : Reply)
      → d.psize < 7 * rounds
      → Returns (continue x a rounds maxdata psize p (d, reply))
  continue-Returns rounds maxdata psize p d silent enough = (_, refl)
  continue-Returns rounds maxdata psize p d wrong enough = (_, refl)
  continue-Returns rounds maxdata psize p d fine enough = elim (Bool-cases (ltb maxdata psize)) [
    | inl e ↦ rw e (send_segments-Returns rounds (maxdata + 7) p d (omega arith) enough)
    | inr e ↦ rw e (_, refl)
  ]

  transmit-psize :
      (build : ℕ → Buffer → Buffer) (test : Buffer → Bool) (link : S) (old : Buffer)
      (d : Download S)
      → (transmit x a build test link old d).0.psize ≡ d.psize
  unfolding transmit
  transmit-psize build test link old d = ground arith

  write_segmented-Returns :
      (mbx_l psize : ℕ) (p : Buffer) (stale : Reception) (link : S) (old : Buffer) (c : Client S)
      → 16 ≤ mbx_l
      → Returns (write_segmented x a (psize / 7 + 1) mbx_l psize p stale link old c)
  unfolding write_segmented
  write_segmented-Returns mbx_l psize p stale link old c h =
      let test : ltb mbx_l 0x10 ≡ false = ground arith in
      rw test (
        continue-Returns (psize / 7 + 1) (mbx_l - 0x10) psize p _ _
          (omega (arith, transmit-psize _ _ link old _)))

  long :
      {mbx_l psize : ℕ}
      → (16 ≤ mbx_l) ⊎ ((psize ≤ 4) × (a.ca ≡ false))
      → (leb psize 4 && not a.ca) ≡ false
      → 16 ≤ mbx_l
  long (inl h) m = h
  long (inr (small, single)) m = absurd (ground arith)

  -- `ecx_SDOwrite` returns after `psize / 7 + 1` segments at most, whatever the slave does with them, if
  -- the data fit in an expedited request or the mailbox has room for the headers, 16 bytes.
  pub sdo_write-Returns :
      (mbx_l psize : ℕ) (p : Buffer) (c : Client S)
      → (16 ≤ mbx_l) ⊎ ((psize ≤ 4) × (a.ca ≡ false))
      → Returns (sdo_write x a (psize / 7 + 1) mbx_l psize p c)
  unfolding sdo_write write_segmented
  sdo_write-Returns mbx_l psize p c h = elim (Option-cases (x.getmbx (x.mbxreceive c.link).0).1) [
    | inl e ↦ rw (e, sdo_write) (_, refl)
    | inr (old, e) ↦
        rw (e, sdo_write)
          (elim (Bool-cases (leb psize 4 && not a.ca)) [
            | inl m ↦ rw m (_, refl)
            | inr m ↦ rw m (write_segmented-Returns mbx_l psize p _ _ old c (long h m))
          ])
  ]

  -- The pool has mailboxes, and the slave takes none of them.
  pub record IsDown (D : S → Type 0) : Type 0 where
    pub pool : (link : S) → D link → (old : Buffer) × ((x.getmbx link).1 ≡ some old)
    pub fetched : (link : S) → D link → D (x.getmbx link).0
    pub lost : (link : S) (mbx : Buffer) → D link → (x.mbxsend link mbx).1 ≡ 0
    pub stays : (link : S) (mbx : Buffer) → D link → D (x.mbxsend link mbx).0

  module _ (D : S → Type 0) (down : IsDown D) where
    ask_segment_lost :
        (link : S) (old : Buffer) (g : Segments S)
        → D link
        → ((ask_segment x a link old g).1 ≡ true) × D (ask_segment x a link old g).0.client.link
    unfolding ask_segment
    ask_segment_lost link old g d =
        let none_sent =
          down.lost link (segment_request a g.toggle (nextmbxcnt g.client.mbx_cnt) old) d in
        (
          rw none_sent refl,
          rw none_sent
              (down.stays link (segment_request a g.toggle (nextmbxcnt g.client.mbx_cnt) old) d),
        )

    read_segments_endless :
        (rounds : ℕ) (g : Segments S) → D g.client.link → read_segments x a rounds g ≡ unfinished
    unfolding read_segments
    read_segments_endless zero g d = refl
    read_segments_endless (suc rounds) g d =
        let (old, e) = down.pool g.client.link d in
        let (more, still) =
          ask_segment_lost (x.getmbx g.client.link).0 old g (down.fetched g.client.link d) in
        read_segments-goes_on x a rounds g old e more
        ∙ read_segments_endless rounds (asked x a rounds g old e).0 still

    -- When the first part of an object has come in and the slave takes no mailbox from then on,
    -- `ecx_SDOread` does not return: no number of rounds is enough. The first part is a response of
    -- normal size for the object, which fits in the buffer but not in one mailbox.
    pub sdo_read_endless :
        (rounds n psize : ℕ) (mbx p : Buffer) (c : Client S)
        → D c.link
        → is_response mbx ≡ true
        → index_of mbx ≡ a.index
        → command mbx / 2 % 2 ≡ 0
        → psize < 2147483648
        → get32 mbx sdo_data ≤ psize
        → frame_size x a mbx < get32 mbx sdo_data
        → take_object x a rounds n mbx psize p c ≡ unfinished
    unfolding take_object
    sdo_read_endless rounds n psize mbx p c d response same normal word fits long =
        let first = first_segment x a n mbx p c in
        ground (arith, read_segments_endless rounds first d)
