-- ===== src/Eoe/Safety.antt =====
-- What `ecx_EOEsend` and `ecx_EOErecv` do with the mailboxes that they take, and with the memory behind
-- the buffer of the caller.
use ether_cat_master.Prelude.{
  ℕ, zero, suc, ◌+◌, ◌%◌, ◌<◌, ◌≤◌, ◌≡◌, refl, ltb, not, ◌&&◌, Bool-cases, inl, inr,
}
use ether_cat_master.Prelude.Int.{ℤ}
use ether_cat_master.Memory.{Buffer, get16}
use ether_cat_master.Mailbox.{
  Mailboxes, mailbox, Run, OnReturn, returns, undefined, unfinished, counted, mbxtype,
}
use ether_cat_master.Eoe.{mbxt_eoe}
use ether_cat_master.Eoe.Send.{
  outgoing, Sender, Outgoing, fragment_size, is_last, send_fragment, send_fragments, eoe_send,
}
use ether_cat_master.Eoe.Receive.{Received}

abbrev pub SameBehind : ℕ → Buffer → Buffer → Type 0
SameBehind size old new = (j : ℕ) → size ≤ j → new j ≡ old j

module _ {S : Type 0} (m : Mailboxes S) (port buffersize : ℕ) where
  -- A mailbox came in whose length is less than that of the EoE header.
  abbrev pub CameShort : Type 0
  CameShort =
      (link : S) × (n : ℕ) × (mbx : Buffer) × ((m.mbxreceive link).1 ≡ mailbox n mbx)
      × (mbxtype mbx ≡ mbxt_eoe)
      × (get16 mbx 0 < 4)

  -- The mailboxes that are out, and the bytes behind the buffer; or why the call is undefined.
  abbrev pub Leaves : ℕ → Buffer → Run (Received (S × ℕ)) → Type 0
  Leaves out old (returns got) = (got.link.1 ≡ out) × SameBehind buffersize old got.buf
  Leaves out old undefined = CameShort
  Leaves out old unfinished = Unit

module _ {S : Type 0} (m : Mailboxes S) where
  abbrev pub Balanced : ℕ → Run (Sender (S × ℕ) × ℤ) → Type 0
  Balanced out run = OnReturn (λ got. got.0.link.1 ≡ out) run

  send_fragments-Balanced :
      (rounds : ℕ) (o : Outgoing) (offset fragment : ℕ) (s : Sender (S × ℕ))
      → Balanced s.link.1 (send_fragments (counted m) rounds o offset fragment s)
  unfolding send_fragments send_fragment
  send_fragments-Balanced zero o offset fragment s = tt
  send_fragments-Balanced (suc rounds) o offset fragment s =
      elim (Bool-cases
        (not (is_last o offset) && ltb 0 (send_fragment (counted m) o offset fragment s).1)) [
          | inl e ↦ rw e (
              send_fragments-Balanced rounds o (offset + fragment_size o offset)
                ((fragment + 1) % 256) (send_fragment (counted m) o offset fragment s).0)
          | inr e ↦ rw e refl
        ]

  -- When `ecx_EOEsend` returns, its caller has as many mailboxes as before.
  pub eoe_send-Balanced :
      (rounds mbx_l port psize : ℕ) (p : Buffer) (s : Sender (S × ℕ))
      → Balanced s.link.1 (eoe_send (counted m) rounds mbx_l port psize p s)
  unfolding eoe_send
  eoe_send-Balanced rounds mbx_l port psize p s = elim (Bool-cases (ltb mbx_l 0x0a)) [
    | inl e ↦ rw e refl
    | inr e ↦ rw e (send_fragments-Balanced rounds (outgoing mbx_l port psize p) 0 0 s)
  ]
