-- ===== src/Master/Transmit.antt =====
-- The mailboxes of a group that wait for their slaves: `ecx_initmbxqueue` to `ecx_mbxdropqueue`.
pub mod Fifo
pub mod Ticket
mod Tests
use ether_cat_master.Prelude.{
  ℕ, zero, suc, ◌+◌, ◌-◌, ltb, leb, ◌==◌, Bool, true, false, if◌then◌else◌, Option, none, some,
}
use ether_cat_master.Prelude.Int.{ℤ, pos, negsuc}
use ether_cat_master.Memory.{Array, update}
use ether_cat_master.Memory.Circle.{next}
use ether_cat_master.Master.Mailbox.{ec_mbxpoolsize}

-- EC_MBXQUEUESTATE_NONE to EC_MBXQUEUESTATE_DONE
pub data QueueState : Type 0 where
  unused : QueueState
  requested : QueueState
  failed : QueueState
  done : QueueState

abbrev done_state : QueueState → Bool
done_state done = true
done_state _ = false

abbrev used_state : QueueState → Bool
used_state unused = false
used_state _ = true

-- The places of `mbx`, `mbxstate`, `mbxremove` and `mbxslave` with one index. A mailbox is its number,
-- NULL is none.
pub record Place : Type 0 where
  pub mbx : Option ℕ
  pub mbxstate : QueueState
  pub mbxremove : Bool
  pub mbxslave : ℕ

-- `ec_mbxqueuet`. A ticket has the index of its place; -1 is none.
pub record MailboxQueue : Type 0 where
  pub listhead : ℕ
  pub listtail : ℕ
  pub listcount : ℕ
  pub places : Array Place
  pub mbxticket : Array (Option ℕ)

-- The indices and the tickets are reset, the places are not.
unfoldable pub initmbxqueue : MailboxQueue → MailboxQueue
unfolding update
initmbxqueue q = record q {
  listhead = 0;
  listtail = 0;
  listcount = 0;
  mbxticket = λ ticket. if ltb ticket ec_mbxpoolsize then none else q.mbxticket ticket;
}

abbrev pub is_taken : Option ℕ → Bool
is_taken none = false
is_taken (some i) = true

-- `while ((++ticket < EC_MBXPOOLSIZE) && (mbxticket[ticket] >= 0))`, with the tickets that are left.
unfoldable pub free_ticket : ℕ → Array (Option ℕ) → ℕ → ℕ
free_ticket zero tickets ticket = ticket
free_ticket (suc left) tickets ticket =
    let rest = free_ticket left tickets (ticket + 1) in
    if is_taken (tickets ticket) then rest else ticket

abbrev pub asked : ℕ → ℕ → Place
asked slave mbx = record {
  mbx = some mbx;
  mbxstate = requested;
  mbxremove = false;
  mbxslave = slave;
}

-- The queue with one more mailbox, and its ticket.
abbrev pub with_mailbox : MailboxQueue → ℕ → ℕ → MailboxQueue
with_mailbox q slave mbx = record q {
  mbxticket = update q.mbxticket (free_ticket ec_mbxpoolsize q.mbxticket 0) (some q.listhead);
  places = update q.places q.listhead (asked slave mbx);
  listhead = next ec_mbxpoolsize q.listhead;
  listcount = q.listcount + 1;
}

unfoldable pub mbxaddqueue : MailboxQueue → ℕ → ℕ → MailboxQueue × ℤ
unfolding update free_ticket
mbxaddqueue q slave mbx =
    if ltb q.listcount ec_mbxpoolsize
    then (with_mailbox q slave mbx, pos (free_ticket ec_mbxpoolsize q.mbxticket 0))
    else (q, negsuc 0)

-- The place of a ticket is to be removed, and the ticket is free.
abbrev give_up : MailboxQueue → ℕ → ℕ → MailboxQueue
give_up q ticket i = record q {
  places = update q.places i (record (q.places i) { mbxremove = true });
  mbxticket = update q.mbxticket ticket none;
}

-- None where the code reads `mbxstate[-1]`: the ticket is free.
abbrev release_if : (QueueState → Bool) → MailboxQueue → ℤ → Option (MailboxQueue × ℕ)
release_if test q (negsuc _) = some (q, 0)
release_if test q (pos ticket) =
    if ltb ticket ec_mbxpoolsize
    then elim (q.mbxticket ticket) [
      | none ↦ none
      | some i ↦ if test (q.places i).mbxstate then some (give_up q ticket i, 1) else some (q, 0)
    ]
    else some (q, 0)

unfoldable pub mbxdonequeue : MailboxQueue → ℤ → Option (MailboxQueue × ℕ)
unfolding update
mbxdonequeue = release_if done_state

unfoldable pub mbxexpirequeue : MailboxQueue → ℤ → Option (MailboxQueue × ℕ)
unfolding update
mbxexpirequeue = release_if used_state

abbrev pub holds_place : Option ℕ → ℕ → Bool
holds_place none i = false
holds_place (some j) i = j == i

-- `while ((cnt < EC_MBXPOOLSIZE) && (mbxticket[cnt] != ticketloc))`
unfoldable pub ticket_of : ℕ → Array (Option ℕ) → ℕ → ℕ → ℕ
ticket_of zero tickets ticketloc cnt = cnt
ticket_of (suc left) tickets ticketloc cnt =
    let rest = ticket_of left tickets ticketloc (cnt + 1) in
    if holds_place (tickets cnt) ticketloc then cnt else rest

-- The first mailbox goes to the end, and its ticket with it.
abbrev pub rotated : MailboxQueue → ℕ → MailboxQueue
rotated q ticket = record q {
  mbxticket = update q.mbxticket ticket (some q.listhead);
  places = update q.places q.listhead (q.places q.listtail);
  listhead = next ec_mbxpoolsize q.listhead;
  listtail = next ec_mbxpoolsize q.listtail;
}

unfoldable pub mbxrotatequeue : MailboxQueue → ℕ → MailboxQueue × ℕ
unfolding update ticket_of
mbxrotatequeue q ticketloc =
    let ticket = ticket_of ec_mbxpoolsize q.mbxticket ticketloc 0 in
    if q.listhead == q.listtail
    then (q, 1)
    else if ltb ticket ec_mbxpoolsize
    then (rotated q ticket, 1)
    else (q, 0)

unfoldable pub mbxdropqueue : MailboxQueue → ℕ → MailboxQueue × Option ℕ
unfolding update
mbxdropqueue q ticketloc = (
  record q {
    places =
        update q.places ticketloc
          (record { mbx = none; mbxstate = unused; mbxremove = false; mbxslave = 0 });
    listtail = next ec_mbxpoolsize q.listtail;
    listcount = q.listcount - 1;
  },
  (q.places ticketloc).mbx,
)
