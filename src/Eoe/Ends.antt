-- ===== src/Eoe/Ends.antt =====
-- How long `ecx_EOEsend` goes on.
use ether_cat_master.Prelude.{
  ℕ, zero, suc, ◌+◌, ◌-◌, ◌*◌, ◌/◌, ◌%◌, ◌<◌, ◌≤◌, ◌≡◌, refl, ltb, true, false, arith, Bool-cases,
  inl, inr, ◌⊎◌, lt→ltb,
}
use ether_cat_master.Prelude.Int.{ℤ}
use ether_cat_master.Memory.{Buffer}
use ether_cat_master.Mailbox.{Mailboxes, Run, returns, unfinished}
use ether_cat_master.Eoe.Send.{
  outgoing, Sender, Outgoing, fragment_size, is_last, send_fragment, send_fragments, eoe_send,
}

module _ {S : Type 0} (m : Mailboxes S) where
  abbrev pub Returns : Run (Sender S × ℤ) → Type 0
  Returns run = (s' : Sender S) × (wkc : ℤ) × (run ≡ returns (s', wkc))

  -- A fragment that is not the last one has a block at least.
  moves_on :
      (o : Outgoing) (offset : ℕ)
      → 32 ≤ o.maxdata
      → is_last o offset ≡ false
      → (32 ≤ fragment_size o offset) × (fragment_size o offset ≤ o.psize - offset)
  unfolding is_last fragment_size
  moves_on o offset room h = (ground arith, ground arith)

  send_fragments-Returns :
      (rounds : ℕ) (o : Outgoing) (offset fragment : ℕ) (s : Sender S)
      → 32 ≤ o.maxdata
      → o.psize - offset < 32 * rounds
      → Returns (send_fragments m rounds o offset fragment s)
  unfolding send_fragments
  send_fragments-Returns zero o offset fragment s room enough = absurd (omega arith)
  send_fragments-Returns (suc rounds) o offset fragment s room enough =
      elim (Bool-cases (is_last o offset)) [
        | inl e ↦ rw e (_, _, refl)
        | inr e ↦ elim (Bool-cases (ltb 0 (send_fragment m o offset fragment s).1)) [
          | inl w ↦
              rw (e, w)
                (send_fragments-Returns rounds o (offset + fragment_size o offset)
                  ((fragment + 1) % 256) (send_fragment m o offset fragment s).0 room
                  (omega (arith, moves_on o offset room e)))
          | inr w ↦ rw (e, w) (_, _, refl)
        ]
      ]

  single_fragment : (o : Outgoing) → o.psize ≤ o.maxdata → is_last o 0 ≡ true
  unfolding is_last fragment_size
  single_fragment o h = ground arith

  send_fragments_once :
      (rounds : ℕ) (o : Outgoing) (s : Sender S)
      → 0 < rounds
      → o.psize ≤ o.maxdata
      → Returns (send_fragments m rounds o 0 0 s)
  unfolding send_fragments
  send_fragments_once zero o s some h = absurd (omega arith)
  send_fragments_once (suc rounds) o s some h = rw (single_fragment o h) (_, _, refl)

  -- `ecx_EOEsend` returns after `psize / 32 + 1` fragments at most, whatever the slave does with them,
  -- if its mailbox has 42 bytes at least, or room for the whole frame, or less than 10 bytes.
  pub eoe_send-Returns :
      (mbx_l port psize : ℕ) (p : Buffer) (s : Sender S)
      → (42 ≤ mbx_l) ⊎ ((psize + 10 ≤ mbx_l) ⊎ (mbx_l < 10))
      → Returns (eoe_send m (psize / 32 + 1) mbx_l port psize p s)
  unfolding eoe_send
  eoe_send-Returns mbx_l port psize p s (inl large) =
      let test : ltb mbx_l 0x0a ≡ false = ground arith in
      rw test (
        send_fragments-Returns (psize / 32 + 1) (outgoing mbx_l port psize p) 0 0 s (omega arith)
          (omega arith))
  eoe_send-Returns mbx_l port psize p s (inr (inl whole)) =
      let test : ltb mbx_l 0x0a ≡ false = ground arith in
      rw test (
        send_fragments_once (psize / 32 + 1) (outgoing mbx_l port psize p) s (omega arith)
          (omega arith))
  eoe_send-Returns mbx_l port psize p s (inr (inr small)) =
      let test : ltb mbx_l 0x0a ≡ true = ground arith in rw test (_, _, refl)

  empty_fragment : (o : Outgoing) → o.maxdata < 32 → o.maxdata < o.psize → fragment_size o 0 ≡ 0
  unfolding fragment_size
  empty_fragment o small large = ground arith

  more_fragments : (o : Outgoing) → o.maxdata < 32 → o.maxdata < o.psize → is_last o 0 ≡ false
  unfolding fragment_size is_last
  more_fragments o small large = ground arith

  abbrev pub Accepts : Type 0
  Accepts = (link : S) (mbx : Buffer) → 0 < (m.mbxsend link mbx).1

  accepted :
      Accepts
      → (o : Outgoing) (offset fragment : ℕ) (s : Sender S)
      → ltb 0 (send_fragment m o offset fragment s).1 ≡ true
  unfolding send_fragment
  accepted accepts o offset fragment s = lt→ltb _ _ (accepts _ _)

  send_fragments_endless :
      (rounds : ℕ) (o : Outgoing) (fragment : ℕ) (s : Sender S)
      → Accepts
      → o.maxdata < 32
      → o.maxdata < o.psize
      → send_fragments m rounds o 0 fragment s ≡ unfinished
  unfolding send_fragments
  send_fragments_endless zero o fragment s accepts small large = refl
  send_fragments_endless (suc rounds) o fragment s accepts small large =
      rw
        (
          more_fragments o small large,
          empty_fragment o small large,
          accepted accepts o 0 fragment s,
        )
        (send_fragments_endless rounds o ((fragment + 1) % 256) (send_fragment m o 0 fragment s).0
          accepts small large)

  -- With a mailbox of 10 to 41 bytes and a frame that does not fit in it, `ecx_EOEsend` does not return
  -- as long as the slave accepts its fragments: no number of rounds is enough.
  pub eoe_send_endless :
      (rounds mbx_l port psize : ℕ) (p : Buffer) (s : Sender S)
      → Accepts
      → 10 ≤ mbx_l
      → mbx_l < 42
      → mbx_l < psize + 10
      → eoe_send m rounds mbx_l port psize p s ≡ unfinished
  unfolding eoe_send
  eoe_send_endless rounds mbx_l port psize p s accepts header small large =
      let test : ltb mbx_l 0x0a ≡ false = ground arith in
      rw test (
        send_fragments_endless rounds (outgoing mbx_l port psize p) 0 s accepts (omega arith)
          (omega arith))
