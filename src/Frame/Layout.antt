-- ===== src/Frame/Layout.antt =====
-- What stands where in a frame.
use ether_cat_master.Prelude.{ℕ, ◌+◌, ◌-◌, ◌<◌, ◌≤◌, ◌≡◌, ◌⊎◌, ◌∙◌, arith, if◌then◌else◌}
use ether_cat_master.Memory.{Buffer, get16, get16-put16, put16, copy}
use ether_cat_master.Frame.{
  Command, code, is_read, put_header, write_datagram_data, clear_wkc, setup_datagram,
}

-- The fields of a datagram whose `ec_comt` stands at `header`.
abbrev pub HasHeader : Buffer → ℕ → Command → ℕ → ℕ → ℕ → ℕ → Type 0
HasHeader frame header cmd idx ADP ADO dlength =
    (frame (header + 2) ≡ code cmd)
    × (frame (header + 3) ≡ idx)
    × (get16 frame (header + 4) ≡ ADP)
    × (get16 frame (header + 6) ≡ ADO)
    × (get16 frame (header + 8) ≡ dlength)

put_header-HasHeader :
    (frame : Buffer) (header : ℕ) (cmd : Command) (idx ADP ADO dlength : ℕ)
    → ADP < 65536
    → ADO < 65536
    → dlength < 65536
    → HasHeader (put_header frame header cmd idx ADP ADO dlength) header cmd idx ADP ADO dlength
unfolding put_header get16
put_header-HasHeader frame header cmd idx ADP ADO dlength p q r =
    (ground arith, ground arith, ground arith, ground arith, ground arith)

-- Only the ten bytes from `header + 2` on are written.
put_header_frame :
    (frame : Buffer) (header : ℕ) (cmd : Command) (idx ADP ADO dlength j : ℕ)
    → (j < header + 2) ⊎ (header + 10 ≤ j)
    → put_header frame header cmd idx ADP ADO dlength j ≡ frame j
unfolding put_header
put_header_frame frame header cmd idx ADP ADO dlength j h = ground arith

-- The byte that goes out for a command: zero where there is nothing to write.
abbrev pub payload : Command → Buffer → Buffer
payload cmd contents j = if is_read cmd then 0 else contents j

write_datagram_data_inside :
    (frame : Buffer) (offset : ℕ) (cmd : Command) (length : ℕ) (contents : Buffer) (j : ℕ)
    → j < length
    → write_datagram_data frame offset cmd length contents (offset + j) ≡ payload cmd contents j
unfolding write_datagram_data copy
write_datagram_data_inside frame offset cmd length contents j h = rw (← shift) (ground arith)
  where
    shift : offset + j - offset ≡ j
    shift = omega arith

write_datagram_data_frame :
    (frame : Buffer) (offset : ℕ) (cmd : Command) (length : ℕ) (contents : Buffer) (j : ℕ)
    → (j < offset) ⊎ (offset + length ≤ j)
    → write_datagram_data frame offset cmd length contents j ≡ frame j
unfolding write_datagram_data copy
write_datagram_data_frame frame offset cmd length contents j h = ground arith

pub clear_wkc-get16 : (frame : Buffer) (offset : ℕ) → get16 (clear_wkc frame offset) offset ≡ 0
unfolding clear_wkc get16
clear_wkc-get16 frame offset = ground arith

clear_wkc_frame :
    (frame : Buffer) (offset j : ℕ)
    → (j < offset) ⊎ (offset + 2 ≤ j)
    → clear_wkc frame offset j ≡ frame j
unfolding clear_wkc
clear_wkc_frame frame offset j h = ground arith

pub put16_frame :
    (frame : Buffer) (offset w j : ℕ)
    → (j < offset) ⊎ (offset + 2 ≤ j)
    → put16 frame offset w j ≡ frame j
unfolding put16
put16_frame frame offset w j h = ground arith

-- A whole datagram: header, data and a work counter of zero. `dlength` is the length with its flag.
pub record HasDatagram (frame : Buffer) (header : ℕ) (cmd : Command)
    (idx ADP ADO length dlength : ℕ) (contents : Buffer) : Type 0 where
  pub fields : HasHeader frame header cmd idx ADP ADO dlength
  pub carried : (j : ℕ) → j < length → frame (header + 12 + j) ≡ payload cmd contents j
  pub wkc : get16 frame (header + 12 + length) ≡ 0

-- The writes of one datagram at `header`, in the order of the code.
abbrev pub put_datagram : Buffer → ℕ → Command → ℕ → ℕ → ℕ → ℕ → ℕ → Buffer → Buffer
put_datagram frame header cmd idx ADP ADO length dlength contents =
    clear_wkc
      (write_datagram_data (put_header frame header cmd idx ADP ADO dlength) (header + 12) cmd
        length contents)
      (header + 12 + length)

pub put_datagram_frame :
    (frame : Buffer) (header : ℕ) (cmd : Command) (idx ADP ADO length dlength : ℕ)
    (contents : Buffer) (j : ℕ)
    → (j < header + 2) ⊎ (header + 14 + length ≤ j)
    → put_datagram frame header cmd idx ADP ADO length dlength contents j ≡ frame j
put_datagram_frame frame header cmd idx ADP ADO length dlength contents j h =
    clear_wkc_frame _ _ j (omega arith)
    ∙ write_datagram_data_frame _ _ cmd length contents j (omega arith)
    ∙ put_header_frame frame header cmd idx ADP ADO dlength j (omega arith)

pub get16-agree : (f g : Buffer) (o : ℕ) → f o ≡ g o → f (o + 1) ≡ g (o + 1) → get16 f o ≡ get16 g o
unfolding get16
get16-agree f g o p q = rw (p, q)

-- A header is read from the ten bytes that hold it.
pub HasHeader-agree :
    (f g : Buffer) (header : ℕ) (cmd : Command) (idx ADP ADO dlength : ℕ)
    → ((j : ℕ) → header + 2 ≤ j → j < header + 10 → f j ≡ g j)
    → HasHeader g header cmd idx ADP ADO dlength
    → HasHeader f header cmd idx ADP ADO dlength
HasHeader-agree f g header cmd idx ADP ADO dlength same (c, i, p, o, l) = (
  same (header + 2) (omega arith) (omega arith) ∙ c,
  same (header + 3) (omega arith) (omega arith) ∙ i,
  word 4 (omega arith) (omega arith) ∙ p,
  word 6 (omega arith) (omega arith) ∙ o,
  word 8 (omega arith) (omega arith) ∙ l,
)
  where
    word : (k : ℕ) → 2 ≤ k → k + 1 < 10 → get16 f (header + k) ≡ get16 g (header + k)
    word k a b =
        get16-agree f g (header + k) (same (header + k) (omega arith) (omega arith))
          (same (header + k + 1) (omega arith) (omega arith))

pub put_datagram-HasDatagram :
    (frame : Buffer) (header : ℕ) (cmd : Command) (idx ADP ADO length dlength : ℕ)
    (contents : Buffer)
    → ADP < 65536
    → ADO < 65536
    → dlength < 65536
    → HasDatagram
        (put_datagram frame header cmd idx ADP ADO length dlength contents)
        header
        cmd
        idx
        ADP
        ADO
        length
        dlength
        contents
put_datagram-HasDatagram frame header cmd idx ADP ADO length dlength contents p q r = record {
  fields =
      HasHeader-agree _ _ header cmd idx ADP ADO dlength
        (λ j a b.
          clear_wkc_frame _ _ j (omega arith)
          ∙ write_datagram_data_frame _ _ cmd length contents j (omega arith))
        (put_header-HasHeader frame header cmd idx ADP ADO dlength p q r);
  carried = λ j h.
      clear_wkc_frame _ _ (header + 12 + j) (omega arith)
      ∙ write_datagram_data_inside _ (header + 12) cmd length contents j h;
  wkc = clear_wkc-get16 _ (header + 12 + length);
}

-- The first datagram of a frame is laid out as asked, with the work counter zero; the frame's
-- length field counts what follows it; the Ethernet header before it and all bytes from the new
-- length on are as they were.
pub setup_datagram_lem :
    (frame : Buffer) (cmd : Command) (idx ADP ADO length : ℕ) (contents : Buffer)
    → ADP < 65536
    → ADO < 65536
    → length < 32768
    → let (f, n) = setup_datagram frame cmd idx ADP ADO length contents in
      HasDatagram f 14 cmd idx ADP ADO length length contents
      × (n ≡ 28 + length)
      × (get16 f 14 ≡ 0x1000 + (n - 16))
      × ((j : ℕ) → (j < 14) ⊎ (n ≤ j) → f j ≡ frame j)
unfolding setup_datagram
setup_datagram_lem frame cmd idx ADP ADO length contents p q r = (
  put_datagram-HasDatagram _ 14 cmd idx ADP ADO length length contents p q (omega arith),
  omega arith,
  get16-agree _ _ 14
        (put_datagram_frame _ 14 cmd idx ADP ADO length length contents 14 (omega arith))
        (put_datagram_frame _ 14 cmd idx ADP ADO length length contents 15 (omega arith))
      ∙ get16-put16 frame 14 _ (omega arith)
      ∙ omega arith,
  λ j h.
      put_datagram_frame _ 14 cmd idx ADP ADO length length contents j (omega arith)
      ∙ put16_frame frame 14 _ j (omega arith),
)

-- A datagram is read from the bytes behind its first two, up to its work counter.
pub HasDatagram-agree :
    (f g : Buffer) (header : ℕ) (cmd : Command) (idx ADP ADO length dlength : ℕ) (contents : Buffer)
    → ((j : ℕ) → header + 2 ≤ j → j < header + 14 + length → f j ≡ g j)
    → HasDatagram g header cmd idx ADP ADO length dlength contents
    → HasDatagram f header cmd idx ADP ADO length dlength contents
HasDatagram-agree f g header cmd idx ADP ADO length dlength contents same h = record {
  fields =
      HasHeader-agree f g header cmd idx ADP ADO dlength (λ j a b. same j a (omega arith)) h.fields;
  carried = λ j l. same (header + 12 + j) (omega arith) (omega arith) ∙ h.carried j l;
  wkc =
      get16-agree f g (header + 12 + length) (same _ (omega arith) (omega arith))
        (same _ (omega arith) (omega arith))
      ∙ h.wkc;
}
