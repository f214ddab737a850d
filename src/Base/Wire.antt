-- ===== src/Base/Wire.antt =====
-- The frames that a primitive sends.
use ether_cat_master.Prelude.{
  ℕ, ◌+◌, ◌<◌, ◌≤◌, ◌≡◌, refl, sym, ◌∙◌, ap, false, arith, Option, none, some, List,
}
use mathlib.Core.Path.{subst}
use ether_cat_master.Memory.{Buffer, update, update_self}
use ether_cat_master.Frame.{Command, setup_datagram}
use ether_cat_master.Frame.Layout.{HasDatagram, HasDatagram-agree, setup_datagram_lem}
use ether_cat_master.Nic.{
  Port, Sent, Stack, BufState, alloc, set_red, getindex, setbufstat, put16_be, rx_prim,
}
use ether_cat_master.Nic.Wait.{Attempts}
use ether_cat_master.Nic.Wait.Wire.{Sends, nothing_sent, sends, IsFrame, out_bytes, srconfirm-Sends}
use ether_cat_master.Base.{setup_in, request}

Sends-map :
    {P Q : Sent → Type 0} {before later : List Sent}
    → ((s : Sent) → P s → Q s)
    → Sends P before later
    → Sends Q before later
Sends-map f nothing_sent = nothing_sent
Sends-map f (sends {s} p rest) = sends (f s p) (Sends-map f rest)

-- The source address stands before the datagram.
put16_be_frame : (buf : Buffer) (w j : ℕ) → 16 ≤ j → put16_be buf 8 w j ≡ buf j
unfolding put16_be update
put16_be_frame buf w j h = ground arith

set_red-none :
    (red : Option Stack) (idx : ℕ) (st : BufState) → red ≡ none → set_red red idx st ≡ none
set_red-none none idx st e = refl
set_red-none (some s) idx st e = absurd (ground (arith, e))

-- A frame with one datagram, as asked.
abbrev pub IsRequest : Command → ℕ → ℕ → ℕ → ℕ → Buffer → Sent → Type 0
IsRequest cmd idx ADP ADO n contents s =
    (s.secondary ≡ false) × (s.size ≡ 28 + n) × HasDatagram s.bytes 14 cmd idx ADP ADO n n contents

module _ (port : Port) (cmd : Command) (ADP ADO n : ℕ) (contents : Buffer) where
  abbrev idx : ℕ
  idx = (getindex port).0

  abbrev prepared : Port
  prepared = setup_in (getindex port).1 idx cmd ADP ADO n contents

  prepared-fields :
      ((prepared.red ≡ set_red port.red idx alloc))
      × (prepared.sent ≡ port.sent)
      × (prepared.txbuf idx ≡ (setup_datagram (port.txbuf idx) cmd idx ADP ADO n contents).0)
      × (prepared.txbuflength idx ≡ (setup_datagram (port.txbuf idx) cmd idx ADP ADO n contents).1)
  unfolding setup_in getindex setbufstat
  prepared-fields = (refl, refl, update_self port.txbuf idx _, update_self port.txbuflength idx _)

  IsFrame-IsRequest :
      ADP < 65536
      → ADO < 65536
      → n < 32768
      → (s : Sent) → IsFrame (out_bytes prepared idx) (prepared.txbuflength idx) s
      → IsRequest cmd idx ADP ADO n contents s
  IsFrame-IsRequest p q r s (side, bytes, size) =
      let f = prepared-fields in
      let d = setup_datagram_lem (port.txbuf idx) cmd idx ADP ADO n contents p q r in
      (
        side,
        size ∙ f.3 ∙ d.1,
        subst (λ b. HasDatagram b 14 cmd idx ADP ADO n n contents) (sym bytes)
            (HasDatagram-agree _ _ 14 cmd idx ADP ADO n n contents
              (λ j lo hi.
                put16_be_frame (prepared.txbuf idx) rx_prim j lo ∙ ap (λ (b : Buffer). b j) f.2)
              d.0),
      )

  -- Without a redundant ring, every frame that a request puts on the wire, its retries included, is
  -- of the size for the length asked and carries the datagram asked: command, index, addresses,
  -- length, data, and a work counter of zero.
  pub request-Sends :
      (attempts : Attempts)
      → port.red ≡ none
      → ADP < 65536
      → ADO < 65536
      → n < 32768
      → Sends
          (IsRequest cmd idx ADP ADO n contents)
          port.sent
          (request port cmd ADP ADO n contents attempts).port.sent
  unfolding request
  request-Sends attempts alone p q r =
      let f = prepared-fields in
      subst
        (λ l.
          Sends (IsRequest cmd idx ADP ADO n contents) l
            (request port cmd ADP ADO n contents attempts).port.sent)
        f.1
        (Sends-map (IsFrame-IsRequest p q r)
          (srconfirm-Sends prepared idx attempts (f.0 ∙ set_red-none port.red idx alloc alone)))
