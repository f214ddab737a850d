-- ===== src/Coe/ReadBack.antt =====
-- `ecx_SDOread` as a whole, on a slave that gives an object out.
use ether_cat_master.Prelude.{
  ℕ, ◌+◌, ◌-◌, ◌*◌, ◌/◌, ◌%◌, ◌<◌, ◌≤◌, ◌≡◌, refl, ◌==◌, ltb, leb, Bool, true, false, if◌then◌else◌,
  arith, [], ◌∷◌, inl, inr, ◌&&◌, ap, ◌∙◌, sym, Bool-cases,
}
use ether_cat_master.Prelude.Int.{pos}
use ether_cat_master.Memory.{Buffer, get16, get32, copy, from, zeros}
use ether_cat_master.Mailbox.{Exchange, Run, returns, nextmbxcnt, clearmbx, ec_maxmbx}
use ether_cat_master.Coe.{Access, Client, is_response, index_of}
use ether_cat_master.Coe.Source.{
  Source, give_first, first_part, expedited_response, first_response, source, next_reply,
  from_source,
}
use ether_cat_master.Coe.Collect.{
  InStep, Collected, Collects, read_segments-Collects, taken, answered,
}
use ether_cat_master.Coe.Read.{
  Upload, Segments, upload_request, take_object, take_expedited, read_segments, finish,
  first_segment, frame_size, held_with, sdo_read,
}

module _ (value : Buffer) (size room : ℕ) (a : Access) where
  abbrev slave : Exchange Source
  slave = from_source value size room

  -- What the master reads in a first response.
  module _ (mbx : Buffer) (same : get16 mbx 9 ≡ a.index) where
    abbrev small : Buffer
    small = expedited_response value size room mbx

    abbrev large : Buffer
    large = first_response value size room mbx

    small-fits : 1 ≤ size → size ≤ 4 → (is_response small && index_of small == a.index) ≡ true
    unfolding expedited_response get16
    small-fits some_bytes few = ground (arith, same)

    small-command : 1 ≤ size → size ≤ 4 → (small 8 / 2 % 2 ≡ 1) × (4 - small 8 / 4 % 4 ≡ size)
    unfolding expedited_response
    small-command some_bytes few = ground arith

    small-data : (j : ℕ) → j < size → small (12 + j) ≡ value j
    unfolding expedited_response
    small-data j h = ground arith

    module _ (roomy : 16 ≤ room) (narrow : room < 60000) (word : size < 2147483648) where
      large-fits : (is_response large && index_of large == a.index) ≡ true
      unfolding first_response get16
      large-fits = ground (arith, same)

      large-normal : large 8 / 2 % 2 ≡ 0
      unfolding first_response
      large-normal = ground arith

      large-size : get32 large 12 ≡ size
      unfolding first_response get32
      large-size = ground arith

      large-part : frame_size slave a large ≡ first_part value size room
      unfolding first_response get16
      large-part = ground arith

      large-data : (j : ℕ) → j < first_part value size room → large (16 + j) ≡ value j
      unfolding first_response
      large-data j h = ground arith

  module _ (mbx p : Buffer) (same : get16 mbx 9 ≡ a.index) (rounds psize : ℕ) (c : Client Source)
      (fits : size ≤ psize) where
    short_object :
        1 ≤ size
        → size ≤ 4
        → take_object slave a rounds 0 (small mbx same) psize p c
          ≡ returns (take_expedited slave a 0 (small mbx same) psize p c)
    unfolding take_object
    short_object some_bytes few =
        rw (small-fits mbx same some_bytes few)
          (rw ((small-command mbx same some_bytes few).0) refl)

    abbrev whole_object : Buffer → ℕ → Segments Source
    whole_object m offset = held_with slave a c (pos 1) size (copy p 0 (from m offset) size)

    short_taken :
        1 ≤ size
        → size ≤ 4
        → take_expedited slave a 0 (small mbx same) psize p c
          ≡ finish slave a (whole_object (small mbx same) 12)
    short_taken some_bytes few =
        let test : leb size psize ≡ true = ground arith in
        rw ((small-command mbx same some_bytes few).1) (rw test refl)

    whole-Collected :
        (m : Buffer) (offset : ℕ)
        → ((j : ℕ) → j < size → m (offset + j) ≡ value j)
        → Collected value size room p c.elist (finish slave a (whole_object m offset))
    unfolding copy from
    whole-Collected m offset stands = record {
      wkc = refl;
      psize = refl;
      bytes = λ j h. ground (arith, stands j h);
      untouched = λ j h. ground arith;
      no_error = refl;
    }

    module _ (roomy : 16 ≤ room) (narrow : room < 60000) (word : psize < 2147483648) where
      size_word : size < 2147483648
      size_word = omega (arith, fits)

      abbrev part : ℕ
      part = first_part value size room

      abbrev parted : Bool → Run (Upload Source)
      parted more =
          if more
          then read_segments slave a rounds (first_segment slave a 0 (large mbx same) p c)
          else returns (finish slave a (whole_object (large mbx same) 16))

      large_object :
          take_object slave a rounds 0 (large mbx same) psize p c ≡ parted (ltb part size)
      unfolding take_object
      large_object =
          let n = large-size mbx same roomy narrow size_word in
          let below : leb 2147483648 size ≡ false = ground (arith, fits) in
          let test : leb size psize ≡ true = ground arith in
          rw (large-fits mbx same roomy narrow size_word) (
            rw (large-normal mbx same roomy narrow size_word)
              (rw n (rw (below, test) (rw (large-part mbx same roomy narrow size_word) refl))))

      -- The slave has given the first part.
      begun-InStep :
          c.link.place ≡ part
          → c.link.toggle ≡ 0
          → c.link.replies ≡ []
          → InStep value size room p (first_segment slave a 0 (large mbx same) p c)
      unfolding copy from
      begun-InStep placed first_toggle idle =
          let n = large-part mbx same roomy narrow size_word in
          record {
            same_place = placed ∙ sym n;
            counted = refl;
            in_object = ground (arith, n);
            same_toggle = first_toggle;
            bit = inl refl;
            answered_all = idle;
            same_bytes = λ j h. ground (arith, n, large-data mbx same roomy narrow size_word j);
            untouched = λ j h. ground (arith, n);
          }

      parted-Collects :
          (more : Bool)
          → ltb part size ≡ more
          → c.link.place ≡ part
          → c.link.toggle ≡ 0
          → c.link.replies ≡ []
          → size < 7 * rounds
          → Collects value size room p c.elist (parted more)
      parted-Collects true e placed first_toggle idle enough =
          read_segments-Collects value size room a p roomy narrow rounds
            (first_segment slave a 0 (large mbx same) p c) (begun-InStep placed first_toggle idle)
            (omega (arith, enough))
      parted-Collects false e placed first_toggle idle enough = (
        _,
        refl,
        whole-Collected (large mbx same) 16
            (λ j h. large-data mbx same roomy narrow size_word j (ground (arith, e))),
      )

  module _ (p : Buffer) (c : Client Source) (cnt : ℕ) where
    abbrev asking : Buffer
    asking = upload_request a cnt (clearmbx zeros)

    asking-index : a.index < 65536 → get16 asking 9 ≡ a.index
    unfolding upload_request get16
    asking-index index_fits = ground arith

    asking-command : asking 8 / 32 ≡ 2
    unfolding upload_request
    asking-command = ground arith

    asking-source : source value size room c.link asking ≡ give_first value size room c.link asking
    unfolding source
    asking-source = rw asking-command refl

  module _ (psize : ℕ) (p : Buffer) (c : Client Source) (idle : c.link.replies ≡ []) where
    abbrev cnt : ℕ
    cnt = nextmbxcnt c.mbx_cnt

    abbrev request : Buffer
    request = asking p c cnt

    abbrev replying : Source → Client Source
    replying s = record c { link = taken value size room s; mbx_cnt = cnt }

    sdo_read-object :
        (rounds : ℕ) (s : Source) (r : Buffer)
        → give_first value size room c.link request ≡ s
        → s.replies ≡ r ∷ []
        → sdo_read slave a rounds psize p c ≡ take_object slave a rounds 0 r psize p (replying s)
    unfolding sdo_read
    sdo_read-object rounds s r gives waits =
        rw (ap (next_reply value size room c.link) idle)
          (rw (asking-source p c cnt ∙ gives) (rw (answered value size room s r waits) refl))

    module _ (index_fits : a.index < 65536) (roomy : 16 ≤ room) (fits_word : room ≤ ec_maxmbx)
        (word : psize < 2147483648) (fits : size ≤ psize) where
      same : get16 request 9 ≡ a.index
      same = asking-index p c cnt index_fits

      short-Collects :
          (rounds : ℕ)
          → (leb 1 size && leb size 4) ≡ true
          → Collects value size room p c.elist (sdo_read slave a rounds psize p c)
      short-Collects rounds short =
          let s = record c.link { replies = small request same ∷ [] } in
          (
            _,
            sdo_read-object rounds s (small request same) (rw short (rw idle refl)) refl
                ∙ short_object request p same rounds psize (replying s) fits (ground arith)
                    (ground arith)
                ∙ ap returns (
                    short_taken request p same rounds psize (replying s) fits (ground arith)
                      (ground arith)),
            whole-Collected request p same rounds psize (replying s) fits (small request same) 12
                (small-data request same),
          )

      long-Collects :
          (leb 1 size && leb size 4) ≡ false
          → Collects value size room p c.elist (sdo_read slave a (size / 7 + 1) psize p c)
      long-Collects long =
          let s : Source = record {
            place = first_part value size room;
            toggle = 0;
            replies = large request same ∷ [];
          } in
          let narrow : room < 60000 = omega (arith, fits_word) in
          let (u, ran, all) =
            parted-Collects request p same (size / 7 + 1) psize (replying s) fits roomy narrow word
              (ltb (first_part value size room) size) refl refl refl refl (omega arith) in
          (
            u,
            sdo_read-object (size / 7 + 1) s (large request same) (rw long (rw idle refl)) refl
                ∙ large_object request p same (size / 7 + 1) psize (replying s) fits roomy narrow
                    word
                ∙ ran,
            all,
          )

-- On a slave that follows the protocol of uploads and has no response waiting, `ecx_SDOread` with
-- `size / 7 + 1` rounds returns the work counter 1, the size of the object and its bytes in the buffer;
-- the bytes behind them and the error list are as before. The object has at most `psize` bytes, the
-- size of the buffer, which is below 2 ^ 31, and the slave's mailbox has 16 to 1486 bytes.
pub sdo_read-Collects :
    (value : Buffer) (size room : ℕ) (a : Access) (psize : ℕ) (p : Buffer) (c : Client Source)
    → c.link.replies ≡ []
    → a.index < 65536
    → 16 ≤ room
    → room ≤ ec_maxmbx
    → psize < 2147483648
    → size ≤ psize
    → Collects value size room p c.elist
        (sdo_read (from_source value size room) a (size / 7 + 1) psize p c)
sdo_read-Collects value size room a psize p c idle index_fits roomy narrow word fits =
    elim (Bool-cases (leb 1 size && leb size 4)) [
      | inl short ↦
          short-Collects value size room a psize p c idle index_fits roomy narrow word fits
            (size / 7 + 1) short
      | inr long ↦
          long-Collects value size room a psize p c idle index_fits roomy narrow word fits long
    ]
