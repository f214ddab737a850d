-- ===== src/Master/Transmit/Tests.antt =====
-- A queue whose window goes round the end of the array.
use ether_cat_master.Prelude.{
  ℕ, ◌<◌, ◌≤◌, ◌≡◌, ◌≢◌, refl, ◌==◌, arith, if◌then◌else◌, drop, [], ◌∷◌, ◌++◌, some, none,
}
use ether_cat_master.Prelude.Int.{pos}
use ether_cat_master.Master.Transmit.{MailboxQueue, asked, mbxaddqueue, mbxrotatequeue}
use ether_cat_master.Master.Transmit.Fifo.{waiting, InRange}
use ether_cat_master.Master.Transmit.Ticket.{taken, mbxaddqueue-waiting, mbxrotatequeue-waiting}

abbrev two_waiting : MailboxQueue
two_waiting = record {
  listhead = 0;
  listtail = 30;
  listcount = 2;
  places = λ i. asked i i;
  mbxticket = λ ticket. if ticket == 0 then some 30 else if ticket == 1 then some 31 else none;
}

-- The third ticket is given out.
third_ticket : (mbxaddqueue two_waiting 5 9).1 ≡ pos 2
unfolding mbxaddqueue
third_ticket = refl

mbxaddqueue-waiting_example :
    (q' : MailboxQueue) × (ticket : ℕ) × (mbxaddqueue two_waiting 5 9 ≡ (q', pos ticket))
    × (ticket < 32)
    × (two_waiting.mbxticket ticket ≡ none)
    × (q'.mbxticket ticket ≡ some 0)
    × (q'.places 0 ≡ asked 5 9)
    × ((other : ℕ) → other ≢ ticket → q'.mbxticket other ≡ two_waiting.mbxticket other)
    × (waiting q' ≡ waiting two_waiting ++ (asked 5 9 ∷ []))
    × InRange q'
    × (taken 32 q'.mbxticket ≤ q'.listcount)
unfolding taken
mbxaddqueue-waiting_example =
    mbxaddqueue-waiting two_waiting 5 9 (omega arith, omega arith, refl) (omega arith) (omega arith)

mbxrotatequeue-waiting_example :
    (q' : MailboxQueue) × (moved : ℕ) × (mbxrotatequeue two_waiting 30 ≡ (q', 1))
    × (waiting q' ≡ drop 1 (waiting two_waiting) ++ (asked 30 30 ∷ []))
    × (two_waiting.mbxticket moved ≡ some 30)
    × (q'.mbxticket moved ≡ some 0)
    × (q'.places 0 ≡ asked 30 30)
    × InRange q'
mbxrotatequeue-waiting_example =
    mbxrotatequeue-waiting two_waiting 0 (omega arith, omega arith, refl) (omega arith)
      (omega arith) refl
