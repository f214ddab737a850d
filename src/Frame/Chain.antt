-- ===== src/Frame/Chain.antt =====
-- A frame of several datagrams.
use ether_cat_master.Prelude.{
  ℕ, ◌+◌, ◌-◌, ◌%◌, ◌<◌, ◌≤◌, ◌≡◌, ◌≢◌, ◌⊎◌, inl, inr, ap, ◌∙◌, Bool, arith, if◌then◌else◌,
}
use ether_cat_master.Memory.{Buffer, get16, put16, get16-put16}
use ether_cat_master.Frame.{
  Command, with_follows, put_header, write_datagram_data, clear_wkc, add_datagram,
}
use ether_cat_master.Frame.Layout.{
  HasDatagram, put_datagram, put_datagram_frame, put_datagram-HasDatagram, put16_frame, get16-agree,
}

-- The words 14 (length of the frame) and 22 (length and flag of the first datagram) are the only
-- ones that an added datagram changes among those that are there.
abbrev pub Untouched : ℕ → ℕ → Type 0
Untouched prevlength j = (j < prevlength) × (j ≢ 14) × (j ≢ 15) × (j ≢ 22) × (j ≢ 23)

module _ (frame : Buffer) (length : ℕ) where
  -- The frame with the two words rewritten.
  abbrev regrown : Buffer
  regrown =
      let grown : Buffer = put16 frame 14 ((get16 frame 14 + 12 + length) % 65536) in
      put16 grown 22 (with_follows (get16 grown 22))

  regrown-14 :
      get16 frame 14 + 12 + length < 65536 → get16 regrown 14 ≡ get16 frame 14 + 12 + length
  regrown-14 h =
      get16-agree _ _ 14 (put16_frame _ 22 _ 14 (omega arith)) (put16_frame _ 22 _ 15 (omega arith))
      ∙ get16-put16 frame 14 _ (omega arith)
      ∙ omega arith

  regrown-22 : get16 regrown 22 ≡ with_follows (get16 frame 22)
  regrown-22 =
      get16-put16 _ 22 _ (omega arith)
      ∙ ap with_follows (
          get16-agree _ _ 22 (put16_frame frame 14 _ 22 (omega arith))
            (put16_frame frame 14 _ 23 (omega arith)))

  regrown_frame : (j : ℕ) → j ≢ 14 → j ≢ 15 → j ≢ 22 → j ≢ 23 → regrown j ≡ frame j
  regrown_frame j a b c e =
      put16_frame _ 22 _ j (omega arith) ∙ put16_frame frame 14 _ j (omega arith)

abbrev pub flagged : Bool → ℕ → ℕ
flagged more length = if more then with_follows length else length

module _ (frame : Buffer) (prevlength : ℕ) (cmd : Command) (idx : ℕ) (more : Bool)
    (ADP ADO length : ℕ) (contents : Buffer) (lo : 28 ≤ prevlength) where
  abbrev added : Buffer
  added =
      put_datagram (regrown frame length) (prevlength - 2) cmd idx ADP ADO length
        (flagged more length) contents

  add_datagram-added :
      (add_datagram frame prevlength cmd idx more ADP ADO length contents).0 ≡ added
  unfolding add_datagram
  add_datagram-added =
      ap
        (λ (o : ℕ).
          clear_wkc
            (write_datagram_data
              (put_header (regrown frame length) (prevlength - 2) cmd idx ADP ADO
                (flagged more length))
              o cmd length contents)
            (o + length))
        same_place
    where
      same_place : prevlength + 12 - 2 ≡ prevlength - 2 + 12
      same_place = omega arith

  -- Bytes before the new header are those of `regrown`.
  added_frame :
      (j : ℕ) → (j < prevlength) ⊎ (prevlength + 12 + length ≤ j) → added j ≡ regrown frame length j
  added_frame j h =
      put_datagram_frame _ (prevlength - 2) cmd idx ADP ADO length (flagged more length) contents j
        (omega arith)

  added_word : (o : ℕ) → o < 27 → get16 added o ≡ get16 (regrown frame length) o
  added_word o h =
      get16-agree added (regrown frame length) o (added_frame o (omega arith))
        (added_frame (o + 1) (omega arith))

  added-Untouched :
      (j : ℕ) → Untouched prevlength j ⊎ (prevlength + 12 + length ≤ j) → added j ≡ frame j
  added-Untouched j (inl (before, a, b, c, e)) =
      added_frame j (inl before) ∙ regrown_frame frame length j a b c e
  added-Untouched j (inr behind) =
      added_frame j (inr behind)
      ∙ regrown_frame frame length j (omega arith) (omega arith) (omega arith) (omega arith)

-- An added datagram is laid out behind the ones that are there, two bytes before the old length,
-- its follow-up flag as asked. The frame's length field grows by its size; the first datagram gets
-- the follow-up flag; everything else in the frame stays. The offset returned is where its data
-- stands once the Ethernet header is stripped.
pub add_datagram_lem :
    (frame : Buffer) (prevlength : ℕ) (cmd : Command) (idx : ℕ) (more : Bool) (ADP ADO length : ℕ)
    (contents : Buffer)
    → ADP < 65536
    → ADO < 65536
    → length < 32768
    → 28 ≤ prevlength
    → prevlength < 65536
    → get16 frame 14 + 12 + length < 65536
    → let (f, n, offset) = add_datagram frame prevlength cmd idx more ADP ADO length contents in
      HasDatagram f (prevlength - 2) cmd idx ADP ADO length (flagged more length) contents
      × (n ≡ prevlength + 12 + length)
      × (offset + 14 ≡ prevlength - 2 + 12)
      × (get16 f 14 ≡ get16 frame 14 + 12 + length)
      × (get16 f 22 ≡ with_follows (get16 frame 22))
      × ((j : ℕ) → Untouched prevlength j ⊎ (prevlength + 12 + length ≤ j) → f j ≡ frame j)
unfolding add_datagram
add_datagram_lem frame prevlength cmd idx more ADP ADO length contents p q r lo hi fits =
    let e : (add_datagram frame prevlength cmd idx more ADP ADO length contents).0
        ≡ added frame prevlength cmd idx more ADP ADO length contents lo =
      add_datagram-added frame prevlength cmd idx more ADP ADO length contents lo in
    (
      rw e (
          put_datagram-HasDatagram _ (prevlength - 2) cmd idx ADP ADO length (flagged more length)
            contents p q (ground arith)),
      omega arith,
      omega arith,
      ap (λ (f : Buffer). get16 f 14) e
          ∙ added_word frame prevlength cmd idx more ADP ADO length contents lo 14 (omega arith)
          ∙ regrown-14 frame length fits,
      ap (λ (f : Buffer). get16 f 22) e
          ∙ added_word frame prevlength cmd idx more ADP ADO length contents lo 22 (omega arith)
          ∙ regrown-22 frame length,
      λ j h.
          ap (λ (f : Buffer). f j) e
          ∙ added-Untouched frame prevlength cmd idx more ADP ADO length contents lo j h,
    )
