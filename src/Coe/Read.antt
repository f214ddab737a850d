-- ===== src/Coe/Read.antt =====
-- `ecx_SDOread`: an object is read, at once or in segments.
use ether_cat_master.Prelude.{
  ℕ, zero, suc, ◌+◌, ◌-◌, ◌/◌, ◌%◌, ◌==◌, ltb, leb, Bool, true, false, ◌&&◌, if◌then◌else◌, none,
  some,
}
use ether_cat_master.Prelude.Int.{ℤ, pos}
use ether_cat_master.Memory.{Buffer, put32, get16, get32, copy, from}
use ether_cat_master.Mailbox.{
  Exchange, Reception, mailbox, nothing, Run, returns, undefined, unfinished, nextmbxcnt, clearmbx,
  drop_held, is_mailbox, minus, reception_wkc,
}
use ether_cat_master.Coe.{
  Access, Client, sdo_up_req, sdo_up_req_ca, sdo_seg_up_req, command, index_of, sdo_data,
  sdo_long_data, segment_data, subindex_sent, toggled, put_request, is_response, packet_failed,
  unexpected,
}

-- The request for the object, and for the next segment with its toggle bit.
unfoldable pub upload_request : Access → ℕ → Buffer → Buffer
unfolding put_request put32
upload_request a cnt mbx =
    put32
      (put_request 0x0a cnt (if a.ca then sdo_up_req_ca else sdo_up_req) a.index (subindex_sent a)
        mbx)
      sdo_data 0

-- Errors name the subindex that was asked for.
abbrev clamped : Access → Access
clamped a = record a { subindex = subindex_sent a }

unfoldable pub segment_request : Access → ℕ → ℕ → Buffer → Buffer
unfolding put_request put32
segment_request a toggle cnt mbx =
    put32 (put_request 0x0a cnt (sdo_seg_up_req + toggle) a.index (subindex_sent a) mbx) sdo_data 0

-- What `ecx_SDOread` leaves: the client, the result, the size and the bytes.
pub record Upload (S : Type 0) : Type 0 where
  pub client : Client S
  pub wkc : ℤ
  pub psize : ℕ
  pub value : Buffer

-- The variables of the loop: `hp` as an offset, and whether there is a mailbox in `MbxIn`.
pub record Segments (S : Type 0) : Type 0 where
  pub client : Client S
  pub wkc : ℤ
  pub hp : ℕ
  pub psize : ℕ
  pub value : Buffer
  pub toggle : ℕ
  pub held : Bool

-- `(Command & 0xe0) == 0x00`, `(Command & 0x01) > 0`, and the size of a segment, a uint16.
abbrev pub is_segment : Buffer → Bool
is_segment mbx = is_response mbx && command mbx / 32 % 8 == 0

abbrev pub last_segment : Buffer → Bool
last_segment mbx = command mbx % 2 == 1

abbrev pub segment_size : Buffer → ℕ
segment_size mbx = (get16 mbx 0 + 65533) % 65536

-- The last segment says how many of its seven bytes are not used.
abbrev pub last_size : Buffer → ℕ
last_size mbx = if segment_size mbx == 7 then 7 - command mbx / 2 % 8 else segment_size mbx

module _ {S : Type 0} (x : Exchange S) (a : Access) where
  -- `if (MbxIn) ecx_dropmbx(context, MbxIn);` and the return.
  abbrev pub finish : Segments S → Upload S
  finish g = record {
    client = record g.client { link = drop_held x g.held g.client.link };
    wkc = g.wkc;
    psize = g.psize;
    value = g.value;
  }

  -- A segment is stored at `hp`.
  abbrev pub stored : ℕ → Buffer → Segments S → Segments S
  stored size mbx g = record g {
    psize = g.psize + size;
    value = copy g.value g.hp (from mbx segment_data) size;
  }

  -- The response to a request for a segment: the variables, and `NotLast`.
  unfoldable pub take_segment : Reception → Segments S → Segments S × Bool
  unfolding copy from unexpected
  take_segment (nothing k) g = (record g { wkc = minus k; held = false }, true)
  take_segment (mailbox n mbx) g =
      let h = record g { wkc = pos (n + 1); held = true } in
      if is_segment mbx
      then (if last_segment mbx
          then (stored (last_size mbx) mbx h, false)
          else (record (stored (segment_size mbx) mbx h) { hp = g.hp + segment_size mbx }, true))
      else (
        record h {
          wkc = pos 0;
          client = record g.client { elist = unexpected (clamped a) mbx g.client.elist };
        },
        false,
      )

  -- A round of the loop, with a mailbox for the request.
  unfoldable pub ask_segment : S → Buffer → Segments S → Segments S × Bool
  unfolding segment_request
  ask_segment link old g =
      let cnt = nextmbxcnt g.client.mbx_cnt in
      let (sent, wkc) = x.mbxsend link (segment_request a g.toggle cnt old) in
      let (l, got) = x.mbxreceive (drop_held x g.held sent) in
      let asked = record g { toggle = toggled g.toggle } in
      if ltb 0 wkc
      then take_segment got (record asked { client = record g.client { link = l; mbx_cnt = cnt } })
      else (
        record asked { wkc = pos wkc; client = record g.client { link = sent; mbx_cnt = cnt } },
        true,
      )

  unfoldable pub read_segments : ℕ → Segments S → Run (Upload S)
  read_segments zero g = unfinished
  read_segments (suc rounds) g =
      let (link, slot) = x.getmbx g.client.link in
      elim slot [
        | none ↦ returns (finish (record g { client = record g.client { link = link } }))
        | some old ↦
            let rest = read_segments rounds (ask_segment link old g).0 in
            if (ask_segment link old g).1 then rest else returns (finish (ask_segment link old g).0)
      ]

  -- The response to the request for the object, with the client that holds it. A negative size is
  -- given to `memcpy`.
  abbrev pub held_with : Client S → ℤ → ℕ → Buffer → Segments S
  held_with c wkc psize value = record {
    client = c;
    wkc = wkc;
    hp = 0;
    psize = psize;
    value = value;
    toggle = 0;
    held = true;
  }

  -- `Framedatasize`, a uint16.
  abbrev pub frame_size : Buffer → ℕ
  frame_size mbx = (get16 mbx 0 + 65526) % 65536

  abbrev pub too_small : ℕ → Buffer → Client S → Upload S
  too_small psize p c =
      finish (held_with (record c { elist = packet_failed c.elist (clamped a) 3 }) (pos 0) psize p)

  abbrev pub take_expedited : ℕ → Buffer → ℕ → Buffer → Client S → Upload S
  take_expedited n mbx psize p c =
      let bytesize = 4 - command mbx / 4 % 4 in
      if leb bytesize psize
      then finish (held_with c (pos (n + 1)) bytesize (copy p 0 (from mbx sdo_data) bytesize))
      else too_small psize p c

  -- The first part of an object that is longer than its mailbox.
  abbrev pub first_segment : ℕ → Buffer → Buffer → Client S → Segments S
  first_segment n mbx p c =
      record (held_with c (pos (n + 1)) (frame_size mbx)
        (copy p 0 (from mbx sdo_long_data) (frame_size mbx))) { hp = frame_size mbx }

  unfoldable pub take_object : ℕ → ℕ → Buffer → ℕ → Buffer → Client S → Run (Upload S)
  unfolding copy from unexpected get32
  take_object rounds n mbx psize p c =
      if (is_response mbx && index_of mbx == a.index)
      then (if command mbx / 2 % 2 == 1
          then returns (take_expedited n mbx psize p c)
          else if leb 2147483648 (get32 mbx sdo_data)
          then undefined
          else if leb (get32 mbx sdo_data) psize
          then (if ltb (frame_size mbx) (get32 mbx sdo_data)
              then read_segments rounds (first_segment n mbx p c)
              else returns (
                  finish (
                    held_with c (pos (n + 1)) (get32 mbx sdo_data)
                      (copy p 0 (from mbx sdo_long_data) (get32 mbx sdo_data)))))
          else returns (too_small psize p c))
      else returns (
          finish
            (held_with (record c { elist = unexpected (clamped a) mbx c.elist }) (pos 0) psize p))

  abbrev pub take_reception : ℕ → ℕ → Buffer → Client S → Reception → Run (Upload S)
  take_reception rounds psize p c (nothing k) =
      returns (record { client = c; wkc = minus k; psize = psize; value = p })
  take_reception rounds psize p c (mailbox n mbx) = take_object rounds n mbx psize p c

  unfoldable pub sdo_read : ℕ → ℕ → Buffer → Client S → Run (Upload S)
  unfolding upload_request clearmbx
  sdo_read rounds psize p c =
      let (l1, stale) = x.mbxreceive c.link in
      let (l2, slot) = x.getmbx l1 in
      elim slot [
        | none ↦ returns (record {
          client = record c { link = l2 };
          wkc = reception_wkc stale;
          psize = psize;
          value = p;
        })
        | some old ↦
            let cnt = nextmbxcnt c.mbx_cnt in
            let (l3, wkc) = x.mbxsend l2 (upload_request a cnt (clearmbx old)) in
            let l4 = drop_held x (is_mailbox stale) l3 in
            let (l5, got) = x.mbxreceive l4 in
            if ltb 0 wkc
            then take_reception rounds psize p (record c { link = l5; mbx_cnt = cnt }) got
            else returns (record {
              client = record c { link = l4; mbx_cnt = cnt };
              wkc = pos wkc;
              psize = psize;
              value = p;
            })
      ]
