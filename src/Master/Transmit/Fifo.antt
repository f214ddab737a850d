-- ===== src/Master/Transmit/Fifo.antt =====
-- The mailboxes that wait, as a list.
use ether_cat_master.Prelude.{
  ℕ, zero, suc, ◌+◌, ◌-◌, ◌<◌, ◌≤◌, ◌≡◌, ◌≢◌, refl, sym, ap, ◌∙◌, leb, if◌then◌else◌, arith, List,
  [], ◌∷◌, ◌++◌, drop,
}
use ether_cat_master.Memory.{Array, update}
use ether_cat_master.Memory.Circle.{
  next, place, place_eq, window, window-push, window-shift, window_frame,
}
use ether_cat_master.Master.Transmit.{
  Place, MailboxQueue, with_mailbox, rotated, asked, mbxdropqueue,
}

abbrev pub waiting : MailboxQueue → List Place
waiting q = window 32 q.places q.listtail q.listcount

-- The indices are in range, and the head is behind the last place.
abbrev pub InRange : MailboxQueue → Type 0
InRange q =
    (q.listtail < 32)
    × (q.listcount ≤ 32)
    × (q.listhead ≡ (
        if leb 32 (q.listtail + q.listcount)
        then q.listtail + q.listcount - 32
        else q.listtail + q.listcount))

window-eq :
    {a b : Array Place} {t u m n : ℕ} → a ≡ b → t ≡ u → m ≡ n → window 32 a t m ≡ window 32 b u n
window-eq p q r = cc

module _ (q : MailboxQueue) (ok : InRange q) where
  head-place : q.listhead ≡ place 32 q.listtail q.listcount
  head-place = ok.2 ∙ sym (place_eq 32 q.listtail q.listcount ok.0 ok.1)

  abbrev at_head : Place → Array Place
  at_head v = update q.places (place 32 q.listtail q.listcount) v

  some_count : q.listhead ≢ q.listtail → (k : ℕ) × (q.listcount ≡ suc k) × (suc k < 32)
  some_count h = (q.listcount - 1, ground (arith, ok.2), ground (arith, ok.2))

  pub waiting-with_mailbox :
      (slave mbx : ℕ)
      → q.listcount < 32
      → waiting (with_mailbox q slave mbx) ≡ waiting q ++ (asked slave mbx ∷ [])
  waiting-with_mailbox slave mbx room =
      window-eq (ap (λ (h : ℕ). update q.places h (asked slave mbx)) head-place) refl (omega arith)
      ∙ window-push 32 q.places q.listtail q.listcount (asked slave mbx) ok.0 room

  pub waiting-rotated :
      (ticket : ℕ)
      → q.listhead ≢ q.listtail
      → waiting (rotated q ticket) ≡ drop 1 (waiting q) ++ (q.places q.listtail ∷ [])
  waiting-rotated ticket some_waiting =
      let first = q.places q.listtail in
      let (k, is_k, room) = some_count some_waiting in
      window-eq
        (ap (λ (h : ℕ). update q.places h first)
          (head-place ∙ ap (λ (n : ℕ). place 32 q.listtail n) is_k))
        refl is_k
      ∙ window-shift 32 q.places q.listtail k first ok.0 room
      ∙ ap (λ (n : ℕ). drop 1 (window 32 q.places q.listtail n) ++ (first ∷ [])) (sym is_k)

  pub InRange-with_mailbox : (slave mbx : ℕ) → q.listcount < 32 → InRange (with_mailbox q slave mbx)
  InRange-with_mailbox slave mbx room = (ok.0, omega arith, ground (arith, ok.2))

  pub InRange-rotated : (ticket : ℕ) → q.listhead ≢ q.listtail → InRange (rotated q ticket)
  InRange-rotated ticket h = (ground (arith, ok.0), ok.1, ground (arith, ok.2, ok.0))

  behind_tail : (k : ℕ) → k < 31 → place 32 (next 32 q.listtail) k ≢ q.listtail
  behind_tail k h = ground (arith, place_eq 32 (next 32 q.listtail) k)

  abbrev dropped : MailboxQueue
  dropped = (mbxdropqueue q q.listtail).0

  pub InRange-dropped : 0 < q.listcount → InRange dropped
  unfolding mbxdropqueue
  InRange-dropped h = (ground (arith, ok.0), omega (arith, ok.1), ground (arith, ok.2, ok.0, ok.1))

  first_waiting :
      (n : ℕ)
      → 0 < n
      → window 32 q.places q.listtail n
        ≡ q.places q.listtail ∷ window 32 q.places (next 32 q.listtail) (n - 1)
  unfolding window
  first_waiting zero h = absurd (omega arith)
  first_waiting (suc n) h =
      ap (λ (m : ℕ). q.places q.listtail ∷ window 32 q.places (next 32 q.listtail) m) (omega arith)

  pub waiting-dropped : 0 < q.listcount → waiting q ≡ q.places q.listtail ∷ waiting dropped
  unfolding mbxdropqueue
  waiting-dropped some_waiting =
      first_waiting q.listcount some_waiting
      ∙ ap (λ (xs : List Place). q.places q.listtail ∷ xs)
          (sym (
            window_frame 32 q.places (next 32 q.listtail) (q.listcount - 1) q.listtail _
              (λ k l. behind_tail k (omega (arith, ok.1)))))
