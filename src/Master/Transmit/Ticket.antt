-- ===== src/Master/Transmit/Ticket.antt =====
-- The tickets of the mailboxes that wait.
use mathlib.Core.Bool.{true≢false, false≢true}
use ether_cat_master.Prelude.{
  drop, ℕ, zero, suc, ◌+◌, ◌<◌, ◌≤◌, ◌≡◌, ◌≢◌, refl, sym, ap, ◌∙◌, ltb, ◌==◌, Bool, if◌then◌else◌,
  arith, [], ◌∷◌, ◌++◌, true, false, Bool-cases, inl, inr, Option, none, some, lt→ltb, ==_iff,
}
use ether_cat_master.Prelude.Int.{pos, negsuc}
use ether_cat_master.Memory.{Array, update, update_self, update_ne}
use ether_cat_master.Master.Transmit.{
  MailboxQueue, asked, free_ticket, is_taken, holds_place, with_mailbox, rotated, mbxaddqueue,
  mbxrotatequeue, mbxdropqueue, ticket_of,
}
use ether_cat_master.Master.Transmit.Fifo.{
  waiting, InRange, waiting-with_mailbox, InRange-with_mailbox, waiting-rotated, InRange-rotated,
  waiting-dropped, InRange-dropped,
}

-- How many of the first `n` tickets are taken.
unfoldable pub taken : ℕ → Array (Option ℕ) → ℕ
taken zero tickets = 0
taken (suc n) tickets = taken n tickets + (if is_taken (tickets n) then 1 else 0)

from_here :
    (tickets : Array (Option ℕ)) (from j : ℕ)
    → is_taken (tickets from) ≡ true
    → (from + 1 ≤ j → is_taken (tickets j) ≡ true)
    → from ≤ j
    → is_taken (tickets j) ≡ true
from_here tickets from j e later low = elim (Bool-cases (from == j)) [
  | inl same ↦ ap (λ k. is_taken (tickets k)) (sym ((==_iff from j).0 same)) ∙ e
  | inr other ↦ later (ground arith)
]

free_ticket_lem :
    (left : ℕ) (tickets : Array (Option ℕ)) (from : ℕ)
    → (free_ticket left tickets from ≤ from + left)
      × (free_ticket left tickets from < from + left
          → is_taken (tickets (free_ticket left tickets from)) ≡ false)
      × ((j : ℕ) → from ≤ j → j < free_ticket left tickets from → is_taken (tickets j) ≡ true)
unfolding free_ticket
free_ticket_lem zero tickets from =
    (omega arith, λ h. absurd (omega arith), λ j low high. absurd (omega arith))
free_ticket_lem (suc left) tickets from =
    let (bound, free, before) = free_ticket_lem left tickets (from + 1) in
    elim (Bool-cases (is_taken (tickets from))) [
      | inl e ↦ rw e (
        omega (arith, bound),
        λ h. free (omega arith),
        λ j low high. from_here tickets from j e (λ more. before j more high) low,
      )
      | inr e ↦ rw e (omega arith, λ h. e, λ j low high. absurd (omega arith))
    ]

all_taken :
    (n : ℕ) (tickets : Array (Option ℕ))
    → ((j : ℕ) → j < n → is_taken (tickets j) ≡ true)
    → taken n tickets ≡ n
unfolding taken
all_taken zero tickets h = refl
all_taken (suc n) tickets h =
    rw (h n (omega arith)) (omega (arith, all_taken n tickets (λ j b. h j (omega arith))))

taken_before :
    (n t : ℕ) (tickets : Array (Option ℕ)) (v : Option ℕ)
    → n ≤ t
    → taken n (update tickets t v) ≡ taken n tickets
unfolding taken
taken_before zero t tickets v h = refl
taken_before (suc n) t tickets v h =
    rw (update_ne tickets t n v (omega arith)) (omega (arith, taken_before n t tickets v))

taken-update :
    (n t : ℕ) (tickets : Array (Option ℕ)) (v : Option ℕ)
    → taken n (update tickets t v) ≤ suc (taken n tickets)
unfolding taken
taken-update zero t tickets v = omega arith
taken-update (suc n) t tickets v = elim (Bool-cases (n == t)) [
  | inl e ↦ ground (arith, taken_before n t tickets v)
  | inr e ↦ rw (update_ne tickets t n v (ground arith)) (omega (arith, taken-update n t tickets v))
]

-- A ticket that is found when not all are taken is free and in range.
free_ticket_found :
    (tickets : Array (Option ℕ))
    → taken 32 tickets < 32
    → (free_ticket 32 tickets 0 < 32) × (is_taken (tickets (free_ticket 32 tickets 0)) ≡ false)
free_ticket_found tickets room =
    let (bound, free, before) = free_ticket_lem 32 tickets 0 in
    elim (Bool-cases (ltb (free_ticket 32 tickets 0) 32)) [
      | inl e ↦ (ground arith, free (ground arith))
      | inr e ↦
          absurd
            (omega (arith, all_taken 32 tickets (λ j b. before j (omega arith) (ground arith))))
    ]

not_taken : (o : Option ℕ) → is_taken o ≡ false → o ≡ none
not_taken none h = refl
not_taken (some i) h = absurd (true≢false h)

mbxaddqueue_room :
    (q : MailboxQueue) (slave mbx : ℕ)
    → q.listcount < 32
    → mbxaddqueue q slave mbx ≡ (with_mailbox q slave mbx, pos (free_ticket 32 q.mbxticket 0))
unfolding mbxaddqueue
mbxaddqueue_room q slave mbx room =
    ap
      (λ (b : Bool).
        if b then (with_mailbox q slave mbx, pos (free_ticket 32 q.mbxticket 0)) else (q, negsuc 0))
      (lt→ltb q.listcount 32 room)

-- A mailbox that is added to a queue with room waits behind all others, which keep their order and their
-- tickets. Its ticket was free, is in range, and has its place. No more tickets are taken than there
-- are mailboxes, as before.
pub mbxaddqueue-waiting :
    (q : MailboxQueue) (slave mbx : ℕ)
    → InRange q
    → taken 32 q.mbxticket ≤ q.listcount
    → q.listcount < 32
    → (q' : MailboxQueue) × (ticket : ℕ) × (mbxaddqueue q slave mbx ≡ (q', pos ticket))
      × (ticket < 32)
      × (q.mbxticket ticket ≡ none)
      × (q'.mbxticket ticket ≡ some q.listhead)
      × (q'.places q.listhead ≡ asked slave mbx)
      × ((other : ℕ) → other ≢ ticket → q'.mbxticket other ≡ q.mbxticket other)
      × (waiting q' ≡ waiting q ++ (asked slave mbx ∷ []))
      × InRange q'
      × (taken 32 q'.mbxticket ≤ q'.listcount)
mbxaddqueue-waiting q slave mbx ok tickets room =
    let ticket = free_ticket 32 q.mbxticket 0 in
    let (bound, free) = free_ticket_found q.mbxticket (omega arith) in
    (
      with_mailbox q slave mbx,
      ticket,
      mbxaddqueue_room q slave mbx room,
      bound,
      not_taken (q.mbxticket ticket) free,
      update_self q.mbxticket ticket (some q.listhead),
      update_self q.places q.listhead (asked slave mbx),
      λ other h. update_ne q.mbxticket ticket other (some q.listhead) h,
      waiting-with_mailbox q ok slave mbx room,
      InRange-with_mailbox q ok slave mbx room,
      omega (arith, taken-update 32 ticket q.mbxticket (some q.listhead)),
    )

holds_place-some : (o : Option ℕ) (i : ℕ) → holds_place o i ≡ true → o ≡ some i
holds_place-some none i h = absurd (false≢true h)
holds_place-some (some j) i h = ap some ((==_iff j i).0 h)

holds_own : (o : Option ℕ) (i : ℕ) → o ≡ some i → holds_place o i ≡ true
holds_own o i h = ap (λ p. holds_place p i) h ∙ ground arith

ticket_of_lem :
    (left : ℕ) (tickets : Array (Option ℕ)) (i from j : ℕ)
    → from ≤ j
    → j < from + left
    → tickets j ≡ some i
    → (ticket_of left tickets i from ≤ j) × (tickets (ticket_of left tickets i from) ≡ some i)
unfolding ticket_of
ticket_of_lem zero tickets i from j low high h = absurd (omega arith)
ticket_of_lem (suc left) tickets i from j low high h =
    elim (Bool-cases (holds_place (tickets from) i)) [
      | inl e ↦ rw e (low, holds_place-some (tickets from) i e)
      | inr e ↦
          let other : from ≢ j = λ same. true≢false (
            sym (holds_own (tickets j) i h) ∙ ap (λ k. holds_place (tickets k) i) (sym same) ∙ e) in
          rw e (ticket_of_lem left tickets i (from + 1) j (omega arith) (omega arith) h)
    ]

mbxrotatequeue_found :
    (q : MailboxQueue) (i : ℕ)
    → q.listhead ≢ q.listtail
    → ticket_of 32 q.mbxticket i 0 < 32
    → mbxrotatequeue q i ≡ (rotated q (ticket_of 32 q.mbxticket i 0), 1)
unfolding mbxrotatequeue
mbxrotatequeue_found q i h found =
    let ticket = ticket_of 32 q.mbxticket i 0 in
    let some_waiting : (q.listhead == q.listtail) ≡ false = ground arith in
    ap (λ (b : Bool). if b then (q, 1) else if ltb ticket 32 then (rotated q ticket, 1) else (q, 0))
      some_waiting
    ∙ ap (λ (b : Bool). if b then (rotated q ticket, 1) else (q, 0)) (lt→ltb ticket 32 found)

-- When the first mailbox of a queue that is neither empty nor full has a ticket, rotation succeeds: the
-- mailbox goes behind all others, which keep their order, and a ticket that had its place has the new
-- place now.
pub mbxrotatequeue-waiting :
    (q : MailboxQueue) (ticket : ℕ)
    → InRange q
    → q.listhead ≢ q.listtail
    → ticket < 32
    → q.mbxticket ticket ≡ some q.listtail
    → (q' : MailboxQueue) × (moved : ℕ) × (mbxrotatequeue q q.listtail ≡ (q', 1))
      × (waiting q' ≡ drop 1 (waiting q) ++ (q.places q.listtail ∷ []))
      × (q.mbxticket moved ≡ some q.listtail)
      × (q'.mbxticket moved ≡ some q.listhead)
      × (q'.places q.listhead ≡ q.places q.listtail)
      × InRange q'
mbxrotatequeue-waiting q ticket ok some_waiting bound has =
    let moved = ticket_of 32 q.mbxticket q.listtail 0 in
    let (first, had) = ticket_of_lem 32 q.mbxticket q.listtail 0 ticket (omega arith) bound has in
    (
      rotated q moved,
      moved,
      mbxrotatequeue_found q q.listtail some_waiting (omega arith),
      waiting-rotated q ok moved some_waiting,
      had,
      update_self q.mbxticket moved (some q.listhead),
      update_self q.places q.listhead (q.places q.listtail),
      InRange-rotated q ok moved some_waiting,
    )

-- Dropping the first mailbox gives it back, and leaves the others in their order.
pub mbxdropqueue-waiting :
    (q : MailboxQueue)
    → InRange q
    → 0 < q.listcount
    → (waiting q ≡ q.places q.listtail ∷ waiting (mbxdropqueue q q.listtail).0)
      × ((mbxdropqueue q q.listtail).1 ≡ (q.places q.listtail).mbx)
      × InRange (mbxdropqueue q q.listtail).0
unfolding mbxdropqueue
mbxdropqueue-waiting q ok some_waiting =
    (waiting-dropped q ok some_waiting, refl, InRange-dropped q ok some_waiting)
