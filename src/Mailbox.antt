-- ===== src/Mailbox.antt =====
-- Mailboxes: their header and counter (src/ec_main.c), and what the protocols above ask of the
-- exchange of mailboxes with one slave.
use ether_cat_master.Prelude.{
  ℕ, zero, suc, ◌+◌, ◌*◌, ◌%◌, ltb, Bool, true, false, if◌then◌else◌, Option,
}
use ether_cat_master.Prelude.Int.{ℤ, pos, sub_ℕ}
use ether_cat_master.Memory.{Buffer, update, put16}

-- EC_MAXMBX, as the build sets it.
abbrev pub ec_maxmbx : ℕ
ec_maxmbx = 1486

-- `ec_nextmbxcnt`, on a uint8_t.
unfoldable pub nextmbxcnt : ℕ → ℕ
nextmbxcnt cnt = if ltb 7 ((cnt + 1) % 256) then 1 else (cnt + 1) % 256

-- `ec_clearmbx`: all bytes of a mailbox but the last one.
unfoldable pub clearmbx : Buffer → Buffer
clearmbx mbx j = if ltb j ec_maxmbx then 0 else mbx j

-- `ec_mbxheadert`, with the address and the priority zero as all senders set them. The type goes
-- with the counter: `type + MBX_HDR_SET_CNT(cnt)`.
unfoldable pub put_mbxheader : Buffer → ℕ → ℕ → ℕ → Buffer
unfolding update put16
put_mbxheader mbx length type cnt =
    update (update (put16 (put16 mbx 0 length) 2 0) 4 0) 5 ((type + cnt * 16 % 256) % 256)

-- `mbxtype & 0x0f`
abbrev pub mbxtype : Buffer → ℕ
mbxtype mbx = mbx 5 % 16

-- What `ecx_mbxreceive` gives: a mailbox with the work counter `n + 1`, or none with the result -k.
pub data Reception : Type 0 where
  mailbox : ℕ → Buffer → Reception
  nothing : ℕ → Reception

-- The exchange with one slave, on a state of any kind. `getmbx` gives a mailbox with the bytes that
-- are in it; `mbxsend` takes a mailbox and gives the work counter, which is not negative.
pub record Mailboxes (S : Type 0) : Type 0 where
  pub getmbx : S → S × Buffer
  pub dropmbx : S → S
  pub mbxsend : S → Buffer → S × ℕ
  pub mbxreceive : S → S × Reception

-- The same exchange for the protocols that look whether the pool had a mailbox.
pub record Exchange (S : Type 0) : Type 0 where
  pub getmbx : S → S × Option Buffer
  pub dropmbx : S → S
  pub mbxsend : S → Buffer → S × ℕ
  pub mbxreceive : S → S × Reception

-- `if (MbxIn) ecx_dropmbx(context, MbxIn)`
abbrev pub drop_held : {S : Type 0} → Exchange S → Bool → S → S
drop_held x true link = x.dropmbx link
drop_held x false link = link

abbrev pub is_mailbox : Reception → Bool
is_mailbox (mailbox n mbx) = true
is_mailbox (nothing k) = false

-- How a call of a protocol ends: it returns, it does what C leaves undefined, or it is not done after
-- the rounds that it was given.
pub data Run (A : Type 0) : Type 0 where
  returns : A → Run A
  undefined : Run A
  unfinished : Run A

abbrev pub minus : ℕ → ℤ
minus k = sub_ℕ 0 k

-- The result of `ecx_mbxreceive`.
abbrev pub reception_wkc : Reception → ℤ
reception_wkc (mailbox n mbx) = pos (n + 1)
reception_wkc (nothing k) = minus k

-- A statement about the result of a call that returns.
abbrev pub OnReturn : {A : Type 0} → (A → Type 0) → Run A → Type 0
OnReturn P (returns a) = P a
OnReturn P undefined = Unit
OnReturn P unfinished = Unit

abbrev pub one_less : ℕ → ℕ
one_less zero = zero
one_less (suc n) = n

-- What was received, and the mailboxes that the caller has then.
abbrev pub received : {S : Type 0} → S × Reception → ℕ → (S × ℕ) × Reception
received (s, mailbox n mbx) out = ((s, suc out), mailbox n mbx)
received (s, nothing k) out = ((s, out), nothing k)

-- The same exchange, with the number of mailboxes that the caller has.
abbrev pub counted : {S : Type 0} → Mailboxes S → Mailboxes (S × ℕ)
counted m = record {
  getmbx = λ (s, out). let (s', mbx) = m.getmbx s in ((s', suc out), mbx);
  dropmbx = λ (s, out). (m.dropmbx s, one_less out);
  mbxsend = λ (s, out) mbx. let (s', wkc) = m.mbxsend s mbx in ((s', one_less out), wkc);
  mbxreceive = λ (s, out). received (m.mbxreceive s) out;
}
