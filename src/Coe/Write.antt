-- ===== src/Coe/Write.antt =====
-- `ecx_SDOwrite`: an object is written, at once or in segments.
use ether_cat_master.Prelude.{
  ℕ, zero, suc, ◌+◌, ◌-◌, ◌*◌, ◌/◌, ◌%◌, ◌==◌, ltb, leb, Bool, true, false, not, ◌&&◌,
  if◌then◌else◌, none, some,
}
use ether_cat_master.Prelude.Int.{ℤ, pos}
use ether_cat_master.Memory.{Buffer, put32, copy, from}
use ether_cat_master.Mailbox.{
  Exchange, Reception, mailbox, nothing, Run, returns, undefined, unfinished, nextmbxcnt, clearmbx,
  drop_held, is_mailbox, minus, reception_wkc,
}
use ether_cat_master.Coe.{
  Access, Client, sdo_down_init, sdo_down_exp, sdo_down_init_ca, command, index_of, subindex_of,
  sdo_data, sdo_long_data, segment_data, subindex_sent, toggled, put_command, put_request,
  is_response, unexpected,
}

-- `framedatasize`, and `NotLast`.
abbrev pub part_size : ℕ → ℕ → ℕ
part_size maxdata psize = if ltb maxdata psize then maxdata else psize

-- Up to 4 bytes at once. The size goes into the command: `((4 - psize) << 2) & 0x0c`.
unfoldable pub expedited_request : Access → ℕ → Buffer → ℕ → Buffer → Buffer
unfolding put_request copy
expedited_request a psize p cnt mbx =
    copy (put_request 0x0a cnt (sdo_down_exp + (4 - psize) % 4 * 4) a.index a.subindex mbx) sdo_data
      p psize

unfoldable pub download_request : Access → ℕ → ℕ → Buffer → ℕ → Buffer → Buffer
unfolding put_request put32 copy
download_request a maxdata psize p cnt mbx =
    copy
      (put32
        (put_request ((0x0a + part_size maxdata psize) % 65536) cnt
          (if a.ca then sdo_down_init_ca else sdo_down_init) a.index (subindex_sent a) mbx)
        sdo_data psize)
      sdo_long_data p (part_size maxdata psize)

-- The last segment says how many of its seven bytes are not used.
abbrev pub segment_command : ℕ → ℕ → ℕ
segment_command maxdata psize =
    if ltb maxdata psize then 0 else if ltb psize 7 then 1 + (7 - psize) * 2 else 1

abbrev pub segment_length : ℕ → ℕ → ℕ
segment_length maxdata psize =
    if not (ltb maxdata psize) && ltb psize 7 then 0x0a else (part_size maxdata psize + 3) % 65536

unfoldable pub segment_message : ℕ → ℕ → ℕ → Buffer → ℕ → Buffer → Buffer
unfolding put_command copy
segment_message toggle maxdata psize p cnt mbx =
    copy
      (put_command (segment_length maxdata psize) cnt (segment_command maxdata psize + toggle) mbx)
      segment_data p (part_size maxdata psize)

-- The variables: `hp` as an offset, the bytes that are left, and whether there is a mailbox in
-- `MbxIn`.
pub record Download (S : Type 0) : Type 0 where
  pub client : Client S
  pub wkc : ℤ
  pub hp : ℕ
  pub psize : ℕ
  pub toggle : ℕ
  pub held : Bool

-- How the slave replied: not at all, as expected, or otherwise.
pub data Reply : Type 0 where
  silent : Reply
  fine : Reply
  wrong : Reply

abbrev pub is_wrong : Reply → Bool
is_wrong wrong = true
is_wrong _ = false

abbrev pub is_fine : Reply → Bool
is_fine fine = true
is_fine _ = false

-- A response to a segment: `(Command & 0xe0) == 0x20`.
abbrev pub is_segment_response : Buffer → Bool
is_segment_response mbx = is_response mbx && command mbx / 32 % 8 == 1

-- A response to a request that named an object.
abbrev pub answers : ℕ → ℕ → Buffer → Bool
answers index subindex mbx = is_response mbx && index_of mbx == index && subindex_of mbx == subindex

module _ {S : Type 0} (x : Exchange S) (a : Access) where
  abbrev pub finish : Download S → Client S × ℤ
  finish d = (record d.client { link = drop_held x d.held d.client.link }, d.wkc)

  -- What a mailbox that was received does, and whether it was as expected.
  abbrev pub accepted : ℕ → Download S → Download S
  accepted n d = record d { wkc = pos (n + 1); held = true }

  abbrev pub denied : Buffer → Download S → Download S
  denied mbx d = record d {
    wkc = pos 0;
    held = true;
    client = record d.client { elist = unexpected a mbx d.client.elist };
  }

  abbrev take_response : (Buffer → Bool) → Reception → Download S → Download S × Reply
  take_response test (nothing k) d = (record d { wkc = minus k; held = false }, silent)
  take_response test (mailbox n mbx) d =
      if test mbx then (accepted n d, fine) else (denied mbx d, wrong)

  -- A request goes out, and its response comes in.
  unfoldable pub transmit :
      (ℕ → Buffer → Buffer) → (Buffer → Bool) → S → Buffer → Download S → Download S × Reply
  unfolding unexpected clearmbx
  transmit build test link old d =
      let cnt = nextmbxcnt d.client.mbx_cnt in
      let (sent, wkc) = x.mbxsend link (build cnt (clearmbx old)) in
      let (l, got) = x.mbxreceive (drop_held x d.held sent) in
      if ltb 0 wkc
      then take_response test got
          (record d { client = record d.client { link = l; mbx_cnt = cnt } })
      else (
        record d { wkc = pos wkc; client = record d.client { link = sent; mbx_cnt = cnt } },
        silent,
      )

  -- A round of the loop with a mailbox for the segment: the variables, and `NotLast`.
  unfoldable pub send_segment : ℕ → Buffer → S → Buffer → Download S → Download S × Bool
  unfolding transmit segment_message from
  send_segment maxdata p link old d =
      let (e, reply) =
        transmit (segment_message d.toggle maxdata d.psize (from p d.hp)) is_segment_response link
          old d in
      let size = part_size maxdata d.psize in
      (
        record e { hp = d.hp + size; psize = d.psize - size; toggle = toggled d.toggle },
        not (is_wrong reply) && ltb maxdata d.psize,
      )

  unfoldable pub send_segments : ℕ → ℕ → Buffer → Download S → Run (Client S × ℤ)
  send_segments zero maxdata p d = unfinished
  send_segments (suc rounds) maxdata p d =
      let (link, slot) = x.getmbx d.client.link in
      elim slot [
        | none ↦ returns (finish (record d { client = record d.client { link = link } }))
        | some old ↦
            let rest = send_segments rounds maxdata p (send_segment maxdata p link old d).0 in
            if (send_segment maxdata p link old d).1
            then rest
            else returns (finish (send_segment maxdata p link old d).0)
      ]

  abbrev pub begin : Client S → Reception → ℕ → ℕ → Download S
  begin c stale hp psize = record {
    client = c;
    wkc = pos 0;
    hp = hp;
    psize = psize;
    toggle = 0;
    held = is_mailbox stale;
  }

  unfoldable pub write_expedited : ℕ → Buffer → Reception → S → Buffer → Client S → Client S × ℤ
  unfolding transmit expedited_request
  write_expedited psize p stale link old c =
      finish
        (transmit (expedited_request a psize p) (answers a.index a.subindex) link old
          (begin c stale 0 psize)).0

  -- Segments follow where the response is as expected and data are left. A mailbox without room for
  -- the headers gives `memcpy` a negative size.
  abbrev pub continue : ℕ → ℕ → ℕ → Buffer → Download S × Reply → Run (Client S × ℤ)
  continue rounds maxdata psize p (d, reply) =
      if is_fine reply && ltb maxdata psize
      then send_segments rounds (maxdata + 7) p d
      else returns (finish d)

  unfoldable pub write_segmented :
      ℕ → ℕ → ℕ → Buffer → Reception → S → Buffer → Client S → Run (Client S × ℤ)
  unfolding transmit download_request send_segments
  write_segmented rounds mbx_l psize p stale link old c =
      let maxdata = mbx_l - 0x10 in
      let size = part_size maxdata psize in
      if ltb mbx_l 0x10
      then undefined
      else continue rounds maxdata psize p (
          transmit (download_request a maxdata psize p) (answers a.index (subindex_sent a)) link old
            (begin c stale size (psize - size)))

  unfoldable pub sdo_write : ℕ → ℕ → ℕ → Buffer → Client S → Run (Client S × ℤ)
  unfolding write_expedited write_segmented
  sdo_write rounds mbx_l psize p c =
      let (l1, stale) = x.mbxreceive c.link in
      let (l2, slot) = x.getmbx l1 in
      elim slot [
        | none ↦ returns (record c { link = l2 }, reception_wkc stale)
        | some old ↦
            if leb psize 4 && not a.ca
            then returns (write_expedited psize p stale l2 old c)
            else write_segmented rounds mbx_l psize p stale l2 old c
      ]
