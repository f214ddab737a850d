-- ===== src/Master/Process/Cover.antt =====
-- The segments that are sent, as the index stack has them.
use ether_cat_master.Prelude.{
  ℕ, zero, suc, ◌+◌, ◌-◌, ◌<◌, ◌≤◌, ◌≡◌, refl, ap, ◌∙◌, sym, arith, inl, inr, Bool-cases, Bool,
  true, false,
}
use mathlib.Core.Path.{subst}
use ether_cat_master.Prelude.Int.{ℤ, pos, ◌-ℤ◌, eqb_ℤ}
use ether_cat_master.Memory.{Buffer, update}
use ether_cat_master.Master.Process.{IndexStack, pushindex}
use ether_cat_master.Master.Process.Send.{
  ProcessGroup, Sending, Loop, send_datagram, send_datagrams,
}

-- From place `k` on, `n` segments lie one behind the other from `start` and are `total` bytes long.
unfoldable pub Tiles : ℕ → IndexStack → ℕ → ℕ → ℕ → Type 0
Tiles zero s k start total = total ≡ 0
Tiles (suc n) s k start total =
    (s.segment k ≡ start)
    × (s.length k ≤ total)
    × Tiles n s (k + 1) (start + s.length k) (total - s.length k)

-- The sizes of a loop add up to the bytes that are left.
unfoldable pub Fills : ℕ → Loop → ℕ → ℕ → Type 0
Fills zero l i left = l.sublength i (pos left) ≡ left
Fills (suc n) l i left =
    (l.sublength i (pos left) ≤ left) × Fills n l (i + 1) (left - l.sublength i (pos left))

-- A stack that has the entries of another one, and maybe more.
abbrev pub Extends : IndexStack → IndexStack → Type 0
Extends s r =
    (s.pushed ≤ r.pushed)
    × ((k : ℕ) → k < s.pushed → (r.segment k ≡ s.segment k) × (r.length k ≡ s.length k))

pub Extends-trans : (s r q : IndexStack) → Extends s r → Extends r q → Extends s q
Extends-trans s r q (le1, same1) (le2, same2) = (
  omega arith,
  λ k h. ((same2 k (omega arith)).0 ∙ (same1 k h).0, (same2 k (omega arith)).1 ∙ (same1 k h).1),
)

pub Extends-refl : (s : IndexStack) → Extends s s
Extends-refl s = (omega arith, λ k h. (refl, refl))

pushindex-Extends :
    (s : IndexStack) (idx segment length DCO : ℕ) → Extends s (pushindex s idx segment length DCO)
unfolding pushindex update
pushindex-Extends s idx segment length DCO = (ground arith, λ k h. (ground arith, ground arith))

pushindex_top :
    (s : IndexStack) (idx segment length DCO : ℕ)
    → s.pushed < 16
    → ((pushindex s idx segment length DCO).pushed ≡ s.pushed + 1)
      × ((pushindex s idx segment length DCO).segment s.pushed ≡ segment)
      × ((pushindex s idx segment length DCO).length s.pushed ≡ length)
unfolding pushindex update
pushindex_top s idx segment length DCO h = (ground arith, ground arith, ground arith)

sub_pos : (a b : ℕ) → b ≤ a → pos a -ℤ pos b ≡ pos (a - b)
unfolding ◌-ℤ◌
sub_pos a b h = ground arith

zero_left : (n : ℕ) → eqb_ℤ (pos n) (pos 0) ≡ true → n ≡ 0
zero_left n h = ground arith

Tiles-next :
    (r : IndexStack) (k next place start len total : ℕ)
    → r.segment k ≡ start
    → r.length k ≡ len
    → len ≤ total
    → next ≡ k + 1
    → place ≡ start + len
    → next ≤ r.pushed
    → Tiles (r.pushed - next) r next place (total - len)
    → Tiles (r.pushed - k) r k start total
unfolding Tiles
Tiles-next r k next place start len total e1 e2 small e3 e4 below rest =
    let tail : Tiles (r.pushed - (k + 1)) r (k + 1) (start + r.length k) (total - r.length k) =
      rw (e2, sym e3, sym e4) rest in
    let size : suc (r.pushed - (k + 1)) ≡ r.pushed - k = omega arith in
    subst (λ (n : ℕ). Tiles n r k start total) size (e1, rw e2 small, tail)

module _ (g : ProcessGroup) (iomap dctime : Buffer) (taken : ℕ → Bool × Bool) (l : Loop) where
  abbrev once : Sending → Sending
  once = send_datagram g iomap dctime taken l

  abbrev loop : ℕ → Sending → Sending
  loop n = send_datagrams g iomap dctime taken n l

  once-Extends : (s : Sending) → Extends s.idxstack (once s).idxstack
  unfolding send_datagram
  once-Extends s = pushindex-Extends s.idxstack _ _ _ _

  once_top :
      (s : Sending)
      → s.idxstack.pushed < 16
      → ((once s).idxstack.pushed ≡ s.idxstack.pushed + 1)
        × ((once s).idxstack.segment s.idxstack.pushed ≡ s.segment + l.shift)
        × ((once s).idxstack.length s.idxstack.pushed ≡ l.sublength s.currentsegment s.left)
  unfolding send_datagram
  once_top s h = pushindex_top s.idxstack _ _ _ _ h

  once_place :
      (s : Sending)
      → ((once s).segment ≡ s.segment + l.sublength s.currentsegment s.left)
        × ((once s).currentsegment ≡ s.currentsegment + 1)
        × ((once s).left ≡ s.left -ℤ pos (l.sublength s.currentsegment s.left))
  unfolding send_datagram
  once_place s = (refl, refl, refl)

  loop_stops : (n : ℕ) (s : Sending) → eqb_ℤ (once s).left (pos 0) ≡ true → loop (suc n) s ≡ once s
  unfolding send_datagrams
  loop_stops n s h = rw h refl

  loop_goes_on :
      (n : ℕ) (s : Sending) → eqb_ℤ (once s).left (pos 0) ≡ false → loop (suc n) s ≡ loop n (once s)
  unfolding send_datagrams
  loop_goes_on n s h = rw h refl

  pub loop-Extends : (n : ℕ) (s : Sending) → Extends s.idxstack (loop n s).idxstack
  unfolding send_datagrams
  loop-Extends zero s = once-Extends s
  loop-Extends (suc n) s = elim (Bool-cases (eqb_ℤ (once s).left (pos 0))) [
    | inl done ↦
        subst (λ (r : Sending). Extends s.idxstack r.idxstack) (sym (loop_stops n s done))
          (once-Extends s)
    | inr more ↦
        subst (λ (r : Sending). Extends s.idxstack r.idxstack) (sym (loop_goes_on n s more))
          (Extends-trans s.idxstack (once s).idxstack (loop n (once s)).idxstack (once-Extends s)
            (loop-Extends n (once s)))
  ]

  -- What the stack has got since the loop began.
  abbrev Covers : Sending → ℕ → Sending → Type 0
  Covers s left r =
      Tiles (r.idxstack.pushed - s.idxstack.pushed) r.idxstack s.idxstack.pushed
        (s.segment + l.shift) left

  -- A stack that goes on from one segment.
  once-Covers :
      (s r : Sending) (left : ℕ)
      → s.idxstack.pushed < 16
      → s.left ≡ pos left
      → l.sublength s.currentsegment (pos left) ≤ left
      → Extends (once s).idxstack r.idxstack
      → Covers (once s) (left - l.sublength s.currentsegment (pos left)) r
      → Covers s left r
  unfolding Tiles
  once-Covers s r left room e small (more, same) rest =
      let (count, begins, spans) = once_top s room in
      let place = once_place s in
      let size = ap (l.sublength s.currentsegment) e in
      let kept = same s.idxstack.pushed (omega (arith, count)) in
      Tiles-next r.idxstack s.idxstack.pushed (once s).idxstack.pushed ((once s).segment + l.shift)
        (s.segment + l.shift) (l.sublength s.currentsegment (pos left)) left (kept.0 ∙ begins)
        (kept.1 ∙ spans ∙ size) small count (omega (arith, place.0, size)) more rest

  Covers-none : (s : Sending) (left : ℕ) → left ≡ 0 → Covers s left s
  unfolding Tiles
  Covers-none s left none =
      let n : 0 ≡ s.idxstack.pushed - s.idxstack.pushed = omega arith in
      subst (λ (n : ℕ). Tiles n s.idxstack s.idxstack.pushed (s.segment + l.shift) left) n none

  once_left :
      (s : Sending) (left : ℕ)
      → s.left ≡ pos left
      → l.sublength s.currentsegment (pos left) ≤ left
      → (once s).left ≡ pos (left - l.sublength s.currentsegment (pos left))
  once_left s left e small =
      (once_place s).2 ∙ rw e (sub_pos left (l.sublength s.currentsegment (pos left)) small)

  ended :
      (s : Sending) (left : ℕ)
      → s.left ≡ pos left
      → l.sublength s.currentsegment (pos left) ≤ left
      → eqb_ℤ (once s).left (pos 0) ≡ true
      → left - l.sublength s.currentsegment (pos left) ≡ 0
  ended s left e small done =
      zero_left _ (ap (λ (z : ℤ). eqb_ℤ z (pos 0)) (sym (once_left s left e small)) ∙ done)

  pub loop-Covers :
      (n : ℕ) (s : Sending) (left : ℕ)
      → s.idxstack.pushed + n < 16
      → s.left ≡ pos left
      → Fills n l s.currentsegment left
      → Covers s left (loop n s)
  unfolding Fills send_datagrams
  loop-Covers zero s left room e fills =
      once-Covers s (once s) left (omega (arith, room)) e (omega (arith, fills))
        (Extends-refl (once s).idxstack) (Covers-none (once s) _ (omega (arith, fills)))
  loop-Covers (suc n) s left room e (small, fills) =
      let count = (once_top s (omega (arith, room))).0 in
      let here = (once_place s).1 in
      elim (Bool-cases (eqb_ℤ (once s).left (pos 0))) [
        | inl done ↦
            subst (λ (r : Sending). Covers s left r) (sym (loop_stops n s done))
              (once-Covers s (once s) left (omega (arith, room)) e small
                (Extends-refl (once s).idxstack)
                (Covers-none (once s) _ (ended s left e small done)))
        | inr more ↦
            subst (λ (r : Sending). Covers s left r) (sym (loop_goes_on n s more))
              (once-Covers s (loop n (once s)) left (omega (arith, room)) e small
                (loop-Extends n (once s))
                (loop-Covers n (once s) _ (omega (arith, room, count)) (once_left s left e small)
                  (rw here fills)))
      ]

  once_pushed : (s : Sending) → (once s).idxstack.pushed ≤ s.idxstack.pushed + 1
  unfolding send_datagram pushindex
  once_pushed s = ground arith

  pub loop_pushed : (n : ℕ) (s : Sending) → (loop n s).idxstack.pushed ≤ s.idxstack.pushed + n + 1
  unfolding send_datagrams
  loop_pushed zero s = omega (arith, once_pushed s)
  loop_pushed (suc n) s =
      let rest = loop_pushed n (once s) in let first = once_pushed s in ground arith
