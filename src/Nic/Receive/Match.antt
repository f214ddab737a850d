-- ===== src/Nic/Receive/Match.antt =====
-- How frames that come in find their buffers.
use ether_cat_master.Prelude.{
  ℕ, ◌+◌, ◌%◌, ◌<◌, ◌≤◌, ◌≡◌, ◌≢◌, ◌⊎◌, inl, inr, refl, sym, ◌∙◌, ap, Bool, true, false, Bool-cases,
  arith, Option, none, some, ltb, lt→ltb, ◌&&◌, ◌==◌,
}
use ether_cat_master.Memory.{Array, Buffer, update, update_ne, copy, from, get16}
use ether_cat_master.Nic.{
  BufState, tx, rcvd, complete, ec_maxbuf, is_noframe, Stack, get16_be, eth_p_ecat,
}
use ether_cat_master.Nic.Receive.{
  inframe, fetch, sort_frame, store_frame, strip, frame_length, wkc_at, is_rcvd, is_tx,
}

-- The index in a packet, and its length word without the flag bits.
abbrev pub index_of : Buffer → ℕ
index_of bytes = bytes 17

abbrev pub length_of : Buffer → ℕ
length_of bytes = get16 bytes 14 % 4096

-- What a call for `idx` may do to another buffer: nothing, or file a frame that it waits for.
abbrev pub Keeps : ℕ → Stack → Stack → Type 0
Keeps idx s t =
    (i : ℕ)
    → i ≢ idx
    → ((t.rxbufstat i ≡ s.rxbufstat i) × (t.rxbuf i ≡ s.rxbuf i))
      ⊎ ((s.rxbufstat i ≡ tx) × (t.rxbufstat i ≡ rcvd))

pub Keeps-refl : (idx : ℕ) (s : Stack) → Keeps idx s s
Keeps-refl idx s i h = inl (refl, refl)

pub Keeps-trans : (idx : ℕ) (s t u : Stack) → Keeps idx s t → Keeps idx t u → Keeps idx s u
Keeps-trans idx s t u p q i h = join (p i h) (q i h)
  where
    join :
        ((t.rxbufstat i ≡ s.rxbufstat i) × (t.rxbuf i ≡ s.rxbuf i))
          ⊎ ((s.rxbufstat i ≡ tx) × (t.rxbufstat i ≡ rcvd))
        → ((u.rxbufstat i ≡ t.rxbufstat i) × (u.rxbuf i ≡ t.rxbuf i))
          ⊎ ((t.rxbufstat i ≡ tx) × (u.rxbufstat i ≡ rcvd))
        → ((u.rxbufstat i ≡ s.rxbufstat i) × (u.rxbuf i ≡ s.rxbuf i))
          ⊎ ((s.rxbufstat i ≡ tx) × (u.rxbufstat i ≡ rcvd))
    join (inl (a, b)) (inl (c, d)) = inl (c ∙ a, d ∙ b)
    join (inl (a, b)) (inr (c, d)) = inr (sym a ∙ c, d)
    join (inr (a, b)) (inl (c, d)) = inr (a, c ∙ b)
    join (inr (a, b)) (inr (c, d)) = cc

store_frame-Keeps_self :
    (s : Stack) (idx n : ℕ) (st : BufState) → Keeps idx s (store_frame s idx n st)
unfolding store_frame
store_frame-Keeps_self s idx n st i h =
    inl (update_ne s.rxbufstat idx i st h, update_ne s.rxbuf idx i _ h)

store_frame-Keeps :
    (s : Stack) (idx k n : ℕ) → s.rxbufstat k ≡ tx → Keeps idx s (store_frame s k n rcvd)
unfolding store_frame update
store_frame-Keeps s idx k n e i h = ground arith

is_tx-eq : (st : BufState) → is_tx st ≡ true → st ≡ tx
is_tx-eq st h = ground arith

&&-right : (a b : Bool) → (a && b) ≡ true → b ≡ true
&&-right a b h = ground arith

sort_frame-Keeps :
    (lengths : Array ℕ) (s : Stack) (idx : ℕ) → Keeps idx s (sort_frame lengths s idx).0
unfolding sort_frame
sort_frame-Keeps lengths s idx = elim (Bool-cases (s.tempbuf 17 == idx)) [
  | inl mine ↦ rw mine (store_frame-Keeps_self (record s { rxcnt = s.rxcnt + 1 }) idx _ complete)
  | inr other ↦ elim (Bool-cases (ltb (s.tempbuf 17) 16 && is_tx (s.rxbufstat (s.tempbuf 17)))) [
    | inl waits ↦
        rw (other, waits)
          (store_frame-Keeps (record s { rxcnt = s.rxcnt + 1 }) idx (s.tempbuf 17) _
            (is_tx-eq _ (&&-right _ _ waits)))
    | inr nobody ↦ rw (other, nobody) (λ i h. inl (refl, refl))
  ]
]

-- Whatever comes in while `idx` is asked for, every other buffer keeps its status and its bytes,
-- except that a transmitted one that waits for this very frame becomes received.
pub inframe-Keeps :
    (lengths : Array ℕ) (s : Stack) (idx : ℕ) (packet : Option Buffer)
    → Keeps idx s (inframe lengths s idx packet).0
unfolding inframe
inframe-Keeps lengths s idx packet =
    elim (Bool-cases (ltb idx ec_maxbuf && is_rcvd (s.rxbufstat idx))) [
      | inl there ↦ rw there (λ i h. inl (update_ne s.rxbufstat idx i complete h, refl))
      | inr missing ↦ rw missing (read packet)
    ]
  where
    read : (p : Option Buffer) → Keeps idx s (fetch lengths s idx p).0
    read none = Keeps-refl idx s
    read (some bytes) = elim (Bool-cases (get16_be bytes 12 == eth_p_ecat)) [
      | inl ecat ↦ rw ecat (sort_frame-Keeps lengths (record s { tempbuf = bytes }) idx)
      | inr foreign ↦ rw foreign (λ i h. inl (refl, refl))
    ]

wkc_at-frame : (buf : Buffer) (l : ℕ) → is_noframe (wkc_at buf l) ≡ false
wkc_at-frame buf l = ground arith

-- A packet that is an EtherCAT frame with the index `idx`.
abbrev pub IsFor : ℕ → Option Buffer → Type 0
IsFor idx none = ⊥
IsFor idx (some bytes) = (get16_be bytes 12 ≡ eth_p_ecat) × (index_of bytes ≡ idx)

-- A work counter is returned only for the frame that was asked for: it was in the buffer already, or
-- it is the packet just read, an EtherCAT frame with the index `idx`. Its buffer is then complete.
pub inframe_answer :
    (lengths : Array ℕ) (s : Stack) (idx : ℕ) (packet : Option Buffer)
    → is_noframe (inframe lengths s idx packet).1 ≡ false
    → ((inframe lengths s idx packet).0.rxbufstat idx ≡ complete)
      × ((s.rxbufstat idx ≡ rcvd) ⊎ IsFor idx packet)
unfolding inframe sort_frame store_frame update
inframe_answer lengths s idx none h = ground arith
inframe_answer lengths s idx (some bytes) h = ground arith

frame_length-strip :
    (old bytes : Buffer) (n : ℕ)
    → 16 ≤ n
    → bytes 14 < 256
    → frame_length (strip old bytes n) ≡ length_of bytes
unfolding frame_length strip copy from get16
frame_length-strip old bytes n h b = ground arith

module _ (lengths : Array ℕ) (s : Stack) (i : ℕ) (bytes : Buffer)
    (ecat : get16_be bytes 12 ≡ eth_p_ecat) (mine : index_of bytes ≡ i) where
  -- The stack when the packet is in `tempbuf`.
  abbrev loaded : Stack
  loaded = record s { tempbuf = bytes; rxcnt = s.rxcnt + 1 }

  filed :
      (j : ℕ)
      → i < ec_maxbuf
      → j ≢ i
      → s.rxbufstat i ≡ tx
      → s.rxbufstat j ≢ rcvd
      → (inframe lengths s j (some bytes)).0 ≡ store_frame loaded i (lengths i) rcvd
  unfolding inframe sort_frame
  filed j lt ne waits other = rw (not_rcvd, is_ecat, not_mine, awaited) (rw mine)
    where
      not_rcvd : (ltb j ec_maxbuf && is_rcvd (s.rxbufstat j)) ≡ false
      not_rcvd = ground arith

      is_ecat : (get16_be bytes 12 == eth_p_ecat) ≡ true
      is_ecat = ground arith

      not_mine : (bytes 17 == j) ≡ false
      not_mine = ground arith

      awaited : (ltb (bytes 17) ec_maxbuf && is_tx (s.rxbufstat (bytes 17))) ≡ true
      awaited = rw mine (ground arith)

  from_buffer :
      i < ec_maxbuf
      → (inframe lengths (store_frame loaded i (lengths i) rcvd) i none).1
        ≡ wkc_at
            (strip (s.rxbuf i) bytes (lengths i))
            (frame_length (strip (s.rxbuf i) bytes (lengths i)))
  unfolding inframe store_frame update
  from_buffer lt = rw (lt→ltb i ec_maxbuf lt, self)
    where
      self : (i == i) ≡ true
      self = ground arith

  from_socket :
      s.rxbufstat i ≡ tx
      → (inframe lengths s i (some bytes)).1
        ≡ wkc_at (strip (s.rxbuf i) bytes (lengths i)) (length_of bytes)
  unfolding inframe sort_frame store_frame update
  from_socket waits = rw (not_rcvd, is_ecat, is_mine, self)
    where
      not_rcvd : (ltb i ec_maxbuf && is_rcvd (s.rxbufstat i)) ≡ false
      not_rcvd = ground arith

      is_ecat : (get16_be bytes 12 == eth_p_ecat) ≡ true
      is_ecat = ground arith

      is_mine : (bytes 17 == i) ≡ true
      is_mine = ground arith

      self : (i == i) ≡ true
      self = ground arith

-- Frames that come back out of order are matched to their requests all the same: if the frame for
-- `i` arrives while `j` is asked for, a later call for `i` returns, with nothing to read, the work
-- counter that it would have returned had it read the frame itself.
pub inframe_reorders :
    (lengths : Array ℕ) (s : Stack) (i j : ℕ) (bytes : Buffer)
    → i < ec_maxbuf
    → j ≢ i
    → s.rxbufstat i ≡ tx
    → s.rxbufstat j ≢ rcvd
    → get16_be bytes 12 ≡ eth_p_ecat
    → index_of bytes ≡ i
    → bytes 14 < 256
    → 16 ≤ lengths i
    → (inframe lengths (inframe lengths s j (some bytes)).0 i none).1
      ≡ (inframe lengths s i (some bytes)).1
inframe_reorders lengths s i j bytes lt ne waits other ecat mine byte size =
    rw (filed lengths s i bytes ecat mine j lt ne waits other) (
      from_buffer lengths s i bytes ecat mine lt
      ∙ ap (wkc_at (strip (s.rxbuf i) bytes (lengths i)))
          (frame_length-strip (s.rxbuf i) bytes (lengths i) size byte)
      ∙ sym (from_socket lengths s i bytes ecat mine waits))
