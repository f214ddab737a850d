-- ===== src/Foe/Bounds.antt =====
-- How long `ecx_FOEread` goes on, and what it does with the buffer and the mailboxes.
use ether_cat_master.Prelude.{
  ℕ, zero, suc, ◌+◌, ◌-◌, ◌<◌, ◌≤◌, ◌≡◌, refl, Bool, true, false, arith, Bool-cases, inl, inr, ap,
  if◌then◌else◌, ltb, ◌==◌,
}
use ether_cat_master.Prelude.Int.{ℤ}
use ether_cat_master.Memory.{Buffer}
use ether_cat_master.Mailbox.{
  Mailboxes, Reception, mailbox, nothing, Run, returns, OnReturn, counted, received, one_less,
  nextmbxcnt, clearmbx, mbxtype,
}
use ether_cat_master.Foe.{
  File, Client, maxdata, mbxt_foe, opcode, foe_data, foe_error, slave_error, other_packet,
  buffer_too_small, drop_if, file_request, foe_read_request,
}
use ether_cat_master.Foe.Read.{
  Reading, packet_size, store_packet, has_room, refused, take_data, take_packet, read_packet,
  read_packets, foe_read, finish, begin,
}

module _ {S : Type 0} (m : Mailboxes S) (file : File) (buffersize : ℕ) where
  abbrev pub Returns : Run (Reading S) → Type 0
  Returns run = (r : Reading S) × (run ≡ returns r)

  -- Another packet follows only one that was full and had room.
  take_packet-more :
      (got : Reception) (r : Reading S)
      → (take_packet m file buffersize got r).1 ≡ true
      → ((take_packet m file buffersize got r).0.dataread ≡ r.dataread + maxdata file)
        × (r.dataread + maxdata file ≤ buffersize)
  unfolding take_packet take_data store_packet
  take_packet-more (nothing k) r h = cc
  take_packet-more (mailbox n mbx) r h = ground arith

  read_packet-more :
      (r : Reading S)
      → (read_packet m file buffersize r).1 ≡ true
      → ((read_packet m file buffersize r).0.dataread ≡ r.dataread + maxdata file)
        × (r.dataread + maxdata file ≤ buffersize)
  unfolding read_packet
  read_packet-more r h =
      let (link, got) = m.mbxreceive (drop_if m r.held r.client.link) in
      take_packet-more got (record r { client = record r.client { link = link } }) h

  read_packets-Returns :
      (rounds : ℕ) (r : Reading S)
      → 0 < maxdata file
      → r.dataread ≤ buffersize
      → buffersize - r.dataread < rounds
      → Returns (read_packets m file buffersize rounds r)
  unfolding read_packets
  read_packets-Returns zero r some_room low enough = absurd (omega arith)
  read_packets-Returns (suc rounds) r some_room low enough =
      elim (Bool-cases (read_packet m file buffersize r).1) [
        | inl e ↦
            let (grown, fits) = read_packet-more r e in
            rw e (
              read_packets-Returns rounds (read_packet m file buffersize r).0 some_room
                (omega (arith, grown, fits)) (omega (arith, grown, fits, some_room)))
        | inr e ↦ rw e (_, refl)
      ]

  started-Returns :
      (sent : Bool) (run : Run (Reading S)) (r : Reading S)
      → Returns run
      → Returns (if sent then run else returns r)
  started-Returns true run r h = h
  started-Returns false run r h = (r, refl)

  -- `ecx_FOEread` returns after `buffersize + 1` packets at most, whatever the slave sends, if its
  -- mailbox has more than the 12 bytes of the headers.
  pub foe_read-Returns :
      (p : Buffer) (c : Client S)
      → 12 < file.mbx_l
      → file.mbx_l < 65536
      → Returns (foe_read m file buffersize (buffersize + 1) p c)
  unfolding foe_read
  foe_read-Returns p c room word =
      started-Returns _ _ _
        (read_packets-Returns (buffersize + 1) _ (omega arith) (omega arith) (omega arith))

abbrev pub SameBehind : ℕ → Buffer → Buffer → Type 0
SameBehind size old new = (j : ℕ) → size ≤ j → new j ≡ old j

-- One more mailbox, while one is held.
abbrev held_count : Bool → ℕ → ℕ
held_count held out = if held then suc out else out

module _ {S : Type 0} (m : Mailboxes S) (file : File) (buffersize : ℕ) where
  -- What a round keeps: the mailboxes of the caller, and the bytes behind the buffer.
  record Keeps (out : ℕ) (old : Buffer) (r : Reading (S × ℕ)) : Type 0 where
    count : r.client.link.1 ≡ held_count r.held out
    behind : SameBehind buffersize old r.value

  if-Keeps :
      (out : ℕ) (old : Buffer) (b : Bool) (x y : Reading (S × ℕ) × Bool)
      → (b ≡ true → Keeps out old x.0)
      → Keeps out old y.0
      → Keeps out old (if b then x else y).0
  if-Keeps out old true x y h k = h refl
  if-Keeps out old false x y h k = k

  store_packet-Keeps :
      (out : ℕ) (old mbx : Buffer) (r : Reading (S × ℕ))
      → Keeps out old r
      → r.dataread + packet_size mbx ≤ buffersize
      → Keeps out old (store_packet (counted m) file buffersize mbx r).0
  unfolding store_packet
  store_packet-Keeps out old mbx r keeps fits = record {
    count = keeps.count;
    behind = λ j h. ground (arith, keeps.behind j h);
  }

  take_data-Keeps :
      (out : ℕ) (old mbx : Buffer) (r : Reading (S × ℕ))
      → Keeps out old r
      → Keeps out old (take_data (counted m) file buffersize mbx r).0
  unfolding take_data
  take_data-Keeps out old mbx r keeps =
      if-Keeps out old (has_room (counted m) file buffersize mbx r)
        (store_packet (counted m) file buffersize mbx r)
        (refused (counted m) file buffersize buffer_too_small r)
        (λ fits. store_packet-Keeps out old mbx r keeps (ground arith))
        (record { count = keeps.count; behind = keeps.behind })

  take_packet-Keeps :
      (out : ℕ) (old : Buffer) (got : S × Reception) (r : Reading (S × ℕ))
      → SameBehind buffersize old r.value
      → Keeps out old
          (take_packet
            (counted m)
            file
            buffersize
            (received got out).1
            (record r { client = record r.client { link = (received got out).0 } })).0
  unfolding take_packet
  take_packet-Keeps out old (link, nothing k) r behind = record { count = refl; behind = behind }
  take_packet-Keeps out old (link, mailbox n mbx) r behind =
      let h : Reading (S × ℕ) = record r {
        client = record r.client { link = (link, suc out) };
        held = true;
      } in
      let same : Keeps out old h = record { count = refl; behind = behind } in
      let none_stored : (e : ℤ) → Keeps out old (refused (counted m) file buffersize e h).0 =
        λ e. record { count = refl; behind = behind } in
      if-Keeps out old (mbxtype mbx == mbxt_foe)
        (if opcode mbx == foe_data
          then take_data (counted m) file buffersize mbx h
          else if opcode mbx == foe_error
          then refused (counted m) file buffersize slave_error h
          else refused (counted m) file buffersize other_packet h)
        (refused (counted m) file buffersize other_packet h)
        (λ _.
          if-Keeps out old (opcode mbx == foe_data) (take_data (counted m) file buffersize mbx h)
            (if opcode mbx == foe_error
              then refused (counted m) file buffersize slave_error h
              else refused (counted m) file buffersize other_packet h)
            (λ _. take_data-Keeps out old mbx h same)
            (if-Keeps out old (opcode mbx == foe_error)
              (refused (counted m) file buffersize slave_error h)
              (refused (counted m) file buffersize other_packet h) (λ _. none_stored slave_error)
              (none_stored other_packet)))
        (none_stored other_packet)

  drop_if-count :
      (held : Bool) (out : ℕ) (link : S × ℕ)
      → link.1 ≡ held_count held out
      → (drop_if (counted m) held link).1 ≡ out
  drop_if-count true out link e = ap one_less e
  drop_if-count false out link e = e

  read_packet-Keeps :
      (out : ℕ) (old : Buffer) (r : Reading (S × ℕ))
      → Keeps out old r
      → Keeps out old (read_packet (counted m) file buffersize r).0
  unfolding read_packet
  read_packet-Keeps out old r keeps = rw (drop_if-count r.held out r.client.link keeps.count) (
      take_packet-Keeps out old (m.mbxreceive (drop_if (counted m) r.held r.client.link).0) r
        keeps.behind)

  -- The mailboxes that are out, and the bytes behind the buffer.
  abbrev pub Leaves : ℕ → Buffer → Run (Reading (S × ℕ)) → Type 0
  Leaves out old run =
      OnReturn (λ r. (r.client.link.1 ≡ out) × SameBehind buffersize old r.value) run

  finish-Leaves :
      (out : ℕ) (old : Buffer) (r : Reading (S × ℕ))
      → Keeps out old r
      → Leaves out old (returns (finish (counted m) file buffersize r))
  finish-Leaves out old r keeps = (drop_if-count r.held out r.client.link keeps.count, keeps.behind)

  read_packets-Leaves :
      (rounds out : ℕ) (old : Buffer) (r : Reading (S × ℕ))
      → Keeps out old r
      → Leaves out old (read_packets (counted m) file buffersize rounds r)
  unfolding read_packets
  read_packets-Leaves zero out old r keeps = tt
  read_packets-Leaves (suc rounds) out old r keeps =
      let next = read_packet-Keeps out old r keeps in
      elim (Bool-cases (read_packet (counted m) file buffersize r).1) [
        | inl e ↦
            rw e (
              read_packets-Leaves rounds out old (read_packet (counted m) file buffersize r).0 next)
        | inr e ↦ rw e (finish-Leaves out old (read_packet (counted m) file buffersize r).0 next)
      ]

  stale-Keeps :
      (out wkc cnt : ℕ) (p old : Buffer) (got : S × Reception) (c : Client (S × ℕ)) (link : S)
      → SameBehind buffersize old p
      → Keeps out old (
          begin
            (counted m)
            file
            buffersize
            (record c { link = (link, (received got out).0.1); mbx_cnt = cnt })
            (received got out).1
            wkc
            p)
  stale-Keeps out wkc cnt p old (s, mailbox n mbx) c link behind = record {
    count = refl;
    behind = behind;
  }
  stale-Keeps out wkc cnt p old (s, nothing k) c link behind = record {
    count = refl;
    behind = behind;
  }

  started-Leaves :
      (sent : Bool) (rounds out : ℕ) (old : Buffer) (r : Reading (S × ℕ))
      → Keeps out old r
      → Leaves out old (
          if sent
          then read_packets (counted m) file buffersize rounds r
          else returns (finish (counted m) file buffersize r))
  started-Leaves true rounds out old r keeps = read_packets-Leaves rounds out old r keeps
  started-Leaves false rounds out old r keeps = finish-Leaves out old r keeps

  -- Whatever the slave sends: when `ecx_FOEread` returns, its caller has as many mailboxes as before, and
  -- no byte behind the `buffersize` bytes of the buffer has changed.
  pub foe_read-Leaves :
      (rounds out : ℕ) (p : Buffer) (c : Client S)
      → Leaves out p (
          foe_read
            (counted m)
            file
            buffersize
            rounds
            p
            (record { link = (c.link, out); mbx_cnt = c.mbx_cnt; reports = c.reports }))
  unfolding foe_read
  foe_read-Leaves rounds out p c =
      let c' : Client (S × ℕ) = record {
        link = (c.link, out);
        mbx_cnt = c.mbx_cnt;
        reports = c.reports;
      } in
      let (l1, stale) = (counted m).mbxreceive (c.link, out) in
      let (l2, old) = (counted m).getmbx l1 in
      let cnt = nextmbxcnt c.mbx_cnt in
      let (l3, wkc) =
        (counted m).mbxsend l2 (file_request foe_read_request file cnt (clearmbx old)) in
      started-Leaves (ltb 0 wkc) rounds out p
        (begin (counted m) file buffersize (record c' { link = l3; mbx_cnt = cnt }) stale wkc p)
        (stale-Keeps out wkc cnt p p (m.mbxreceive c.link) c' l3.0 (λ j h. refl))
