-- ===== src/Nic/Wait/Wire.antt =====
-- What an exchange puts on the wire, in a port without a redundant ring.
use ether_cat_master.Prelude.{
  ℕ, ◌≡◌, refl, sym, ◌∙◌, ap, Bool, true, false, Bool-cases, inl, inr, arith, Option, none, some,
  List, ◌∷◌,
}
use mathlib.Core.Path.{subst}
use ether_cat_master.Memory.{Array, Buffer, update, update_self}
use ether_cat_master.Nic.{is_noframe, Port, Sent, Stack, put16_be, rx_prim, ec_noframe}
use ether_cat_master.Nic.Receive.{outframe_red, outframe, send_dummy, sent_if}
use ether_cat_master.Nic.Wait.{
  Round, Rounds, expires, goes_on, Waiting, read_primary, read_secondary, poll_round, poll_rounds,
  is_done, Resend, redundant, waitinframe_red, Attempt, Attempts, last_try, retry, try_once,
  srconfirm, start_wkc2,
}

-- Receiving changes nothing of a port that sending looks at.
abbrev pub SameOut : Port → Port → Type 0
SameOut p q =
    (q.red ≡ none) × (q.txbuf ≡ p.txbuf) × (q.txbuflength ≡ p.txbuflength) × (q.sent ≡ p.sent)

SameOut-trans : (p q r : Port) → SameOut p q → SameOut q r → SameOut p r
SameOut-trans p q r (a, b, c, d) (e, f, g, h) = (e, f ∙ b, g ∙ c, h ∙ d)

SameOut-refl : (p : Port) → p.red ≡ none → SameOut p p
SameOut-refl p h = (h, refl, refl, refl)

read_primary-SameOut :
    (idx : ℕ) (packet : Option Buffer) (w : Waiting)
    → w.port.red ≡ none
    → SameOut w.port (read_primary idx packet w).port
unfolding read_primary
read_primary-SameOut idx packet w h = elim (Bool-cases (is_noframe w.wkc)) [
  | inl t ↦ rw t (h, refl, refl, refl)
  | inr f ↦ rw f (h, refl, refl, refl)
]

read_secondary-SameOut :
    (red : Option Stack) (idx : ℕ) (packet : Option Buffer) (w : Waiting)
    → red ≡ none
    → w.port.red ≡ none
    → SameOut w.port (read_secondary red idx packet w).port
unfolding read_secondary
read_secondary-SameOut none idx packet w e h = SameOut-refl w.port h
read_secondary-SameOut (some red) idx packet w e h = absurd (ground (arith, e))

poll_round-SameOut :
    (idx : ℕ) (r : Round) (w : Waiting)
    → w.port.red ≡ none
    → SameOut w.port (poll_round idx r w).port
unfolding poll_round
poll_round-SameOut idx r w h =
    let first : SameOut w.port (read_primary idx r.primary w).port =
      read_primary-SameOut idx r.primary w h in
    elim (Bool-cases r.polled) [
      | inl t ↦ rw t (
          SameOut-trans w.port (read_primary idx r.primary w).port
            (read_secondary (read_primary idx r.primary w).port.red idx r.second
              (read_primary idx r.primary w)).port
            first
            (read_secondary-SameOut _ idx r.second (read_primary idx r.primary w) first.0 first.0))
      | inr f ↦ rw f (SameOut-refl w.port h)
    ]

poll_rounds-SameOut :
    (idx : ℕ) (rounds : Rounds) (w : Waiting)
    → w.port.red ≡ none
    → SameOut w.port (poll_rounds idx rounds w).port
unfolding poll_rounds
poll_rounds-SameOut idx (expires r) w h = poll_round-SameOut idx r w h
poll_rounds-SameOut idx (goes_on r rest) w h =
    let now : SameOut w.port (poll_round idx r w).port = poll_round-SameOut idx r w h in
    elim (Bool-cases (is_done (poll_round idx r w))) [
      | inl t ↦ rw t now
      | inr f ↦ rw f (
          SameOut-trans w.port (poll_round idx r w).port
            (poll_rounds idx rest (poll_round idx r w)).port now
            (poll_rounds-SameOut idx rest (poll_round idx r w) now.0))
    ]

redundant-none :
    (red : Option Stack) (idx : ℕ) (again : Resend) (w : Waiting)
    → red ≡ none
    → (redundant red idx again w).0 ≡ w.port
unfolding redundant
redundant-none none idx again w e = refl
redundant-none (some red) idx again w e = absurd (ground (arith, e))

waitinframe_red-SameOut :
    (port : Port) (idx : ℕ) (rounds : Rounds) (again : Resend)
    → port.red ≡ none
    → SameOut port (waitinframe_red port idx rounds again).0
unfolding waitinframe_red
waitinframe_red-SameOut port idx rounds again h =
    let start : Waiting = record { port = port; wkc = ec_noframe; wkc2 = start_wkc2 port.red } in
    let w : Waiting = poll_rounds idx rounds start in
    let polled : SameOut port w.port = poll_rounds-SameOut idx rounds start h in
    rw (redundant-none w.port.red idx again w polled.0) polled

-- Lists that start with frames of a kind, and go on with what was sent before.
pub data Sends (P : Sent → Type 0) (before : List Sent) : List Sent → Type 0 where
  nothing_sent : Sends P before before
  sends : {s : Sent} {later : List Sent} → P s → Sends P before later → Sends P before (s ∷ later)

-- Exactly the frame `bytes`, on the primary socket.
abbrev pub IsFrame : Buffer → ℕ → Sent → Type 0
IsFrame bytes size s = (s.secondary ≡ false) × (s.bytes ≡ bytes) × (s.size ≡ size)

-- The frame of an index as it goes out: with the primary source address.
abbrev pub out_bytes : Port → ℕ → Buffer
out_bytes port idx = put16_be (port.txbuf idx) 8 rx_prim

sent_if-Sends :
    (P : Sent → Type 0) (before later : List Sent) (taken : Bool) (s : Sent)
    → P s
    → Sends P before later
    → Sends P before (sent_if taken s later)
sent_if-Sends P before later true s p q = sends p q
sent_if-Sends P before later false s p q = q

send_dummy-none :
    (red : Option Stack) (port : Port) (idx : ℕ) (taken : Bool)
    → red ≡ none
    → send_dummy red port idx taken ≡ port
unfolding send_dummy
send_dummy-none none port idx taken e = refl
send_dummy-none (some s) port idx taken e = absurd (ground (arith, e))

-- The address is written again by every try, with the same bytes.
put16_be_again :
    (buf : Buffer) (offset w j : ℕ)
    → put16_be (put16_be buf offset w) offset w j ≡ put16_be buf offset w j
unfolding put16_be update
put16_be_again buf offset w j = ground arith

put16_be_twice :
    (buf : Buffer) (offset w : ℕ)
    → put16_be (put16_be buf offset w) offset w ≡ put16_be buf offset w
put16_be_twice buf offset w i j = put16_be_again buf offset w j i

-- What holds of a port between two tries.
pub record IsSending (bytes : Buffer) (size idx : ℕ) (before : List Sent) (p : Port) : Type 0 where
  pub alone : p.red ≡ none
  pub ready : out_bytes p idx ≡ bytes
  pub fits : p.txbuflength idx ≡ size
  pub wire : Sends (IsFrame bytes size) before p.sent

module _ (bytes : Buffer) (size idx : ℕ) (before : List Sent) where
  -- The port of `outframe_red` before the frame goes out.
  abbrev addressed : Port → Port
  addressed p = record p { txbuf = update p.txbuf idx (out_bytes p idx) }

  addressed-bytes : (p : Port) → (addressed p).txbuf idx ≡ out_bytes p idx
  addressed-bytes p = update_self p.txbuf idx (out_bytes p idx)

  outframe-IsSending :
      (p : Port) (taken : Bool)
      → IsSending bytes size idx before p
      → IsSending bytes size idx before (outframe (addressed p) idx taken)
  unfolding outframe
  outframe-IsSending p taken h = record {
    alone = h.alone;
    ready =
        ap (λ (b : Buffer). put16_be b 8 rx_prim) (addressed-bytes p)
        ∙ put16_be_twice (p.txbuf idx) 8 rx_prim
        ∙ h.ready;
    fits = h.fits;
    wire =
        sent_if-Sends (IsFrame bytes size) before p.sent taken _
          (refl, addressed-bytes p ∙ h.ready, h.fits) h.wire;
  }

  outframe_red-IsSending :
      (p : Port) (taken taken2 : Bool)
      → IsSending bytes size idx before p
      → IsSending bytes size idx before (outframe_red p idx taken taken2)
  unfolding outframe_red
  outframe_red-IsSending p taken taken2 h =
      let out : IsSending bytes size idx before (outframe (addressed p) idx taken) =
        outframe-IsSending p taken h in
      subst (λ q. IsSending bytes size idx before q)
        (sym (
          send_dummy-none (outframe (addressed p) idx taken).red (outframe (addressed p) idx taken)
            idx taken2 out.alone))
        out

  SameOut-IsSending :
      (p q : Port)
      → SameOut p q
      → IsSending bytes size idx before p
      → IsSending bytes size idx before q
  SameOut-IsSending p q (red, txbuf, txbuflength, sent) h = record {
    alone = red;
    ready = ap (λ (b : Array Buffer). put16_be (b idx) 8 rx_prim) txbuf ∙ h.ready;
    fits = ap (λ (l : Array ℕ). l idx) txbuflength ∙ h.fits;
    wire = subst (λ l. Sends (IsFrame bytes size) before l) (sym sent) h.wire;
  }

  try_once-IsSending :
      (p : Port) (a : Attempt)
      → IsSending bytes size idx before p
      → IsSending bytes size idx before (try_once p idx a).0
  unfolding try_once
  try_once-IsSending p a h =
      let out : IsSending bytes size idx before (outframe_red p idx a.taken a.taken2) =
        outframe_red-IsSending p a.taken a.taken2 h in
      SameOut-IsSending (outframe_red p idx a.taken a.taken2)
        (waitinframe_red (outframe_red p idx a.taken a.taken2) idx a.rounds a.again).0
        (waitinframe_red-SameOut _ idx a.rounds a.again out.alone) out

  srconfirm-IsSending_from :
      (p : Port) (attempts : Attempts)
      → IsSending bytes size idx before p
      → IsSending bytes size idx before (srconfirm p idx attempts).0
  unfolding srconfirm
  srconfirm-IsSending_from p (last_try a) h = try_once-IsSending p a h
  srconfirm-IsSending_from p (retry a rest) h =
      let now : IsSending bytes size idx before (try_once p idx a).0 = try_once-IsSending p a h in
      elim (Bool-cases (is_noframe (try_once p idx a).1)) [
        | inl t ↦ rw t (srconfirm-IsSending_from (try_once p idx a).0 rest now)
        | inr f ↦ rw f now
      ]

-- Without a redundant ring, everything that an exchange puts on the wire, over all its retries, is
-- the frame of its index with the primary source address, at its length, on the primary socket; the
-- frames sent before stay before them.
pub srconfirm-Sends :
    (port : Port) (idx : ℕ) (attempts : Attempts)
    → port.red ≡ none
    → Sends
        (IsFrame (out_bytes port idx) (port.txbuflength idx))
        port.sent
        (srconfirm port idx attempts).0.sent
srconfirm-Sends port idx attempts alone =
    (srconfirm-IsSending_from (out_bytes port idx) (port.txbuflength idx) idx port.sent port
      attempts (record { alone = alone; ready = refl; fits = refl; wire = nothing_sent })).wire
