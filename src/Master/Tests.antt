-- ===== src/Master/Tests.antt =====
-- Errors and mailboxes on examples.
use ether_cat_master.Prelude.{arith, ◌≡◌, refl, true, false, if◌then◌else◌, [], ◌∷◌}
use ether_cat_master.Prelude.Int.{pos}
use ether_cat_master.Memory.Circle.{window}
use ether_cat_master.Master.Errors.{
  ErrorRing, blank_error, pusherror, poperror, iserror, packeterror, packet_error,
}
use ether_cat_master.Master.Errors.Queue.{
  InRange, pending, remember, signalled, pusherror-pending, poperror-pending,
}
use ether_cat_master.Master.Mailbox.{MailboxPool, initmbxpool, getmbx, dropmbx}
use ether_cat_master.Master.Mailbox.Pool.{Life, starts, gets, drops, Fresh, getmbx-Fresh}

-- A ring at its end: the next head is 0.
abbrev turning : ErrorRing
turning = record { head = 64; tail = 63; errors = λ i. blank_error i 0; ecaterror = true }

turning_holds : pending turning ≡ (blank_error 63 0 ∷ [])
unfolding window
turning_holds = refl

-- A packet error goes behind the error that is there.
turning_reports : pending (packeterror turning 7 1 0x6041 0 3) ≡ (
    blank_error 63 0
    ∷ record (blank_error 7 1) {
      signal = true;
      index = 0x6041;
      etype = packet_error;
      error_code = 3;
    }
    ∷ [])
unfolding window packeterror pusherror
turning_reports = refl

pusherror-pending_example :
    InRange (pusherror turning (blank_error 9 2))
    × (pending (pusherror turning (blank_error 9 2))
        ≡ remember 64 (pending turning) (signalled (blank_error 9 2)))
pusherror-pending_example = pusherror-pending turning (omega arith, omega arith) (blank_error 9 2)

poperror-pending_example :
    (pending turning
      ≡ (if (poperror turning).2 then (poperror turning).1 ∷ pending (poperror turning).0 else []))
    × ((poperror turning).2 ≡ iserror turning)
    × InRange (poperror turning).0
    × ((poperror turning).2 ≡ false
        → ((poperror turning).0.ecaterror ≡ false) × (pending (poperror turning).0 ≡ []))
poperror-pending_example = poperror-pending turning (omega arith, omega arith)

-- Two mailboxes are taken, and the first one is given back.
abbrev used : MailboxPool
used = (dropmbx (getmbx (getmbx initmbxpool).0).0 (pos 0)).0

used-Life : Life used (1 ∷ [])
unfolding initmbxpool getmbx
used-Life = drops (1 ∷ []) 0 [] (gets (gets starts refl) refl)

getmbx-Fresh_example : Fresh (1 ∷ []) (getmbx used).1
getmbx-Fresh_example = getmbx-Fresh used (1 ∷ []) used-Life
