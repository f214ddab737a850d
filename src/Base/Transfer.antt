-- ===== src/Base/Transfer.antt =====
-- What the blocking primitives guarantee, for all of them at once.
use ether_cat_master.Prelude.{
  ℕ, sym, Bool-cases, inr, ◌%◌, ◌/◌, ◌≡◌, inl, refl, ap, false, ◌&&◌, ◌==◌,
}
use mathlib.Core.Path.{subst}
use ether_cat_master.Prelude.Int.{pos, ltb_ℤ}
use ether_cat_master.Memory.{Buffer, zeros, put16, update_self, update_ne}
use ether_cat_master.Frame.{
  Command, ec_cmdoffset, code, bwr, brd, aprd, armw, frmw, fprd, apwr, fpwr, lwr, lrw, lrd,
}
use ether_cat_master.Nic.{empty, Stack, Port, getindex, setbufstat}
use ether_cat_master.Nic.Index.{getindex_lem, getindex-rxbuf}
use ether_cat_master.Nic.Receive.Match.{Keeps, Keeps-trans}
use ether_cat_master.Nic.Wait.{Attempts, srconfirm}
use ether_cat_master.Nic.Wait.Confirm.{srconfirm-Keeps}
use ether_cat_master.Base.{
  Answer, setup_in, request, received, release, ecx_bwr, ecx_brd, ecx_lrwdc, ecx_aprdw, ecx_fprdw,
  ecx_apwrw, ecx_fpwrw, add_in, reg_dcsystime, dctime_size, ecx_aprd, ecx_armw, ecx_frmw, ecx_fprd,
  ecx_apwr, ecx_fpwr, ecx_lrw, ecx_lrd, ecx_lwr,
}

-- A call of a primitive. The first three arguments are ADP, ADO and the length, the first two ADP and
-- ADO of a word, or the logical address and the length.
pub data Call : Type 0 where
  call_bwr call_brd call_aprd call_armw call_frmw call_fprd call_apwr call_fpwr : ℕ → ℕ → ℕ → Call
  call_aprdw call_fprdw : ℕ → ℕ → Call
  call_apwrw call_fpwrw : ℕ → ℕ → ℕ → Call
  call_lrw call_lrd call_lwr : ℕ → ℕ → Call
  call_lrwdc : ℕ → ℕ → ℕ → Buffer → Call

-- The port after a call.
abbrev pub call : Port → Call → Buffer → Attempts → Port
call port (call_bwr ADP ADO n) contents attempts = (ecx_bwr port ADP ADO n contents attempts).port
call port (call_brd ADP ADO n) contents attempts = (ecx_brd port ADP ADO n contents attempts).port
call port (call_aprd ADP ADO n) contents attempts = (ecx_aprd port ADP ADO n contents attempts).port
call port (call_armw ADP ADO n) contents attempts = (ecx_armw port ADP ADO n contents attempts).port
call port (call_frmw ADP ADO n) contents attempts = (ecx_frmw port ADP ADO n contents attempts).port
call port (call_fprd ADP ADO n) contents attempts = (ecx_fprd port ADP ADO n contents attempts).port
call port (call_apwr ADP ADO n) contents attempts = (ecx_apwr port ADP ADO n contents attempts).port
call port (call_fpwr ADP ADO n) contents attempts = (ecx_fpwr port ADP ADO n contents attempts).port
call port (call_aprdw ADP ADO) contents attempts = (ecx_aprdw port ADP ADO attempts).0
call port (call_fprdw ADP ADO) contents attempts = (ecx_fprdw port ADP ADO attempts).0
call port (call_apwrw ADP ADO w) contents attempts = (ecx_apwrw port ADP ADO w attempts).0
call port (call_fpwrw ADP ADO w) contents attempts = (ecx_fpwrw port ADP ADO w attempts).0
call port (call_lrw LogAdr n) contents attempts = (ecx_lrw port LogAdr n contents attempts).port
call port (call_lrd LogAdr n) contents attempts = (ecx_lrd port LogAdr n contents attempts).port
call port (call_lwr LogAdr n) contents attempts = (ecx_lwr port LogAdr n contents attempts).port
call port (call_lrwdc LogAdr n DCrs DCtime) contents attempts =
    (ecx_lrwdc port LogAdr n contents DCrs DCtime attempts).0.port

-- A request keeps the buffers of the others, and so does the release of its own.
confirm-Keeps :
    (port q : Port) (attempts : Attempts)
    → q.stack ≡ (getindex port).1.stack
    → Keeps (getindex port).0 port.stack (srconfirm q (getindex port).0 attempts).0.stack
confirm-Keeps port q attempts same =
    Keeps-trans (getindex port).0 port.stack q.stack
      (srconfirm q (getindex port).0 attempts).0.stack
      (subst (λ (s : Stack). Keeps (getindex port).0 port.stack s) (sym same)
        (λ i h.
          inl ((getindex_lem port 0).2 i h, ap (λ (b : ℕ → Buffer). b i) (getindex-rxbuf port))))
      (srconfirm-Keeps q (getindex port).0 attempts)

request-Keeps :
    (port : Port) (cmd : Command) (ADP ADO n : ℕ) (contents : Buffer) (attempts : Attempts)
    → Keeps (getindex port).0 port.stack (request port cmd ADP ADO n contents attempts).port.stack
unfolding request setup_in
request-Keeps port cmd ADP ADO n contents attempts =
    confirm-Keeps port (setup_in (getindex port).1 (getindex port).0 cmd ADP ADO n contents)
      attempts refl

release-Keeps :
    (a : Answer) (s : Stack) (contents : Buffer)
    → Keeps a.idx s a.port.stack
    → (Keeps a.idx s (release a contents).port.stack)
      × ((release a contents).port.stack.rxbufstat a.idx ≡ empty)
unfolding setbufstat
release-Keeps a s contents k = (
  Keeps-trans a.idx s a.port.stack (setbufstat a.port a.idx empty).stack k
      (λ i h. inl (update_ne a.port.stack.rxbufstat a.idx i empty h, refl)),
  update_self a.port.stack.rxbufstat a.idx empty,
)

-- The buffer of the index that is taken is unused again, the others are as they were.
abbrev pub Released : Port → Port → Type 0
Released port q =
    Keeps (getindex port).0 port.stack q.stack × (q.stack.rxbufstat (getindex port).0 ≡ empty)

module _ (port : Port) (attempts : Attempts) where
  request-Released :
      (cmd : Command) (ADP ADO n : ℕ) (contents out : Buffer)
      → Released port (release (request port cmd ADP ADO n contents attempts) out).port
  unfolding request
  request-Released cmd ADP ADO n contents out =
      release-Keeps (request port cmd ADP ADO n contents attempts) port.stack out
        (request-Keeps port cmd ADP ADO n contents attempts)

  -- The frame of ecx_LRWDC has a second datagram.
  lrwdc-Released :
      (LogAdr n DCrs : ℕ) (contents DCtime : Buffer)
      → Released port (ecx_lrwdc port LogAdr n contents DCrs DCtime attempts).0.port
  unfolding ecx_lrwdc add_in setup_in
  lrwdc-Released LogAdr n DCrs contents DCtime =
      let (idx, p) = getindex port in
      let first : Port = setup_in p idx lrw (LogAdr % 65536) (LogAdr / 65536) n contents in
      let second : Port = (add_in first idx frmw false DCrs reg_dcsystime dctime_size DCtime).0 in
      let (q, wkc) = srconfirm second idx attempts in
      let a : Answer = record { idx = idx; port = q; wkc = wkc } in
      let given = release-Keeps a port.stack contents (confirm-Keeps port second attempts refl) in
      elim (Bool-cases (ltb_ℤ (pos 0) wkc && (received a ec_cmdoffset == code lrw))) [
        | inl copied ↦ rw copied given
        | inr kept ↦ rw kept given
      ]

  -- Every primitive of `ec_base.c` gives its buffer back, the word primitives and `ecx_LRWDC` included:
  -- the index that it takes is unused when it returns, however the exchange went, and every other
  -- buffer keeps its status and its bytes, except that a transmitted one may get the frame that it
  -- waits for.
  pub call_releases : (contents : Buffer) (c : Call) → Released port (call port c contents attempts)
  unfolding ecx_bwr ecx_brd ecx_aprd ecx_armw ecx_frmw ecx_fprd ecx_apwr ecx_fpwr ecx_lrw ecx_lrd
      ecx_lwr ecx_aprdw ecx_fprdw ecx_apwrw ecx_fpwrw
  call_releases contents (call_bwr ADP ADO n) = request-Released bwr ADP ADO n contents contents
  call_releases contents (call_brd ADP ADO n) = request-Released brd ADP ADO n contents contents
  call_releases contents (call_aprd ADP ADO n) = request-Released aprd ADP ADO n contents contents
  call_releases contents (call_armw ADP ADO n) = request-Released armw ADP ADO n contents contents
  call_releases contents (call_frmw ADP ADO n) = request-Released frmw ADP ADO n contents contents
  call_releases contents (call_fprd ADP ADO n) = request-Released fprd ADP ADO n contents contents
  call_releases contents (call_apwr ADP ADO n) = request-Released apwr ADP ADO n contents contents
  call_releases contents (call_fpwr ADP ADO n) = request-Released fpwr ADP ADO n contents contents
  call_releases contents (call_aprdw ADP ADO) = request-Released aprd ADP ADO 2 zeros zeros
  call_releases contents (call_fprdw ADP ADO) = request-Released fprd ADP ADO 2 zeros zeros
  call_releases contents (call_apwrw ADP ADO w) =
      request-Released apwr ADP ADO 2 (put16 zeros 0 w) zeros
  call_releases contents (call_fpwrw ADP ADO w) =
      request-Released fpwr ADP ADO 2 (put16 zeros 0 w) zeros
  call_releases contents (call_lrw LogAdr n) =
      request-Released lrw (LogAdr % 65536) (LogAdr / 65536) n contents contents
  call_releases contents (call_lrd LogAdr n) =
      request-Released lrd (LogAdr % 65536) (LogAdr / 65536) n contents contents
  call_releases contents (call_lwr LogAdr n) =
      request-Released lwr (LogAdr % 65536) (LogAdr / 65536) n contents contents
  call_releases contents (call_lrwdc LogAdr n DCrs DCtime) =
      lrwdc-Released LogAdr n DCrs contents DCtime
