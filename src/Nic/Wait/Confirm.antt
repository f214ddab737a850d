-- ===== src/Nic/Wait/Confirm.antt =====
-- What a whole exchange does to the buffers that belong to other requests.
use ether_cat_master.Prelude.{
  ℕ, ◌≡◌, inl, inr, refl, sym, Bool, Bool-cases, arith, Option, none, some,
}
use mathlib.Core.Path.{subst}
use ether_cat_master.Prelude.Int.{ℤ}
use ether_cat_master.Memory.{Buffer, update_ne}
use ether_cat_master.Nic.{is_noframe, Stack, Port, ec_noframe}
use ether_cat_master.Nic.Receive.{outframe_red, send_dummy, outframe_secondary}
use ether_cat_master.Nic.Receive.Match.{Keeps, Keeps-refl, Keeps-trans, inframe-Keeps}
use ether_cat_master.Nic.Wait.{
  Round, Rounds, expires, goes_on, Waiting, read_primary, read_secondary, poll_round, poll_rounds,
  is_done, Resend, resend, resend_rounds, crossed, open_ring, again_out, start_wkc2, copy_secondary,
  copy_to_tx, decide_route, redundant, waitinframe_red, Attempt, Attempts, last_try, retry,
  try_once, srconfirm,
}

read_primary-Keeps :
    (idx : ℕ) (packet : Option Buffer) (w : Waiting)
    → Keeps idx w.port.stack (read_primary idx packet w).port.stack
unfolding read_primary
read_primary-Keeps idx packet w = elim (Bool-cases (is_noframe w.wkc)) [
  | inl t ↦ rw t (inframe-Keeps w.port.txbuflength w.port.stack idx packet)
  | inr f ↦ rw f (Keeps-refl idx w.port.stack)
]

read_secondary-stack :
    (red : Option Stack) (idx : ℕ) (packet : Option Buffer) (w : Waiting)
    → (read_secondary red idx packet w).port.stack ≡ w.port.stack
unfolding read_secondary
read_secondary-stack none idx packet w = refl
read_secondary-stack (some red) idx packet w = ground arith

poll_round-Keeps :
    (idx : ℕ) (r : Round) (w : Waiting) → Keeps idx w.port.stack (poll_round idx r w).port.stack
unfolding poll_round
poll_round-Keeps idx r w = elim (Bool-cases r.polled) [
  | inl t ↦ rw t (
      subst (λ s. Keeps idx w.port.stack s)
        (sym (read_secondary-stack _ idx r.second (read_primary idx r.primary w)))
        (read_primary-Keeps idx r.primary w))
  | inr f ↦ rw f (Keeps-refl idx w.port.stack)
]

poll_rounds-Keeps :
    (idx : ℕ) (rounds : Rounds) (w : Waiting)
    → Keeps idx w.port.stack (poll_rounds idx rounds w).port.stack
unfolding poll_rounds
poll_rounds-Keeps idx (expires r) w = poll_round-Keeps idx r w
poll_rounds-Keeps idx (goes_on r rest) w = elim (Bool-cases (is_done (poll_round idx r w))) [
  | inl t ↦ rw t (poll_round-Keeps idx r w)
  | inr f ↦ rw f (
      Keeps-trans idx w.port.stack (poll_round idx r w).port.stack
        (poll_rounds idx rest (poll_round idx r w)).port.stack (poll_round-Keeps idx r w)
        (poll_rounds-Keeps idx rest (poll_round idx r w)))
]

copy_secondary-Keeps :
    (port : Port) (red : Stack) (idx : ℕ) → Keeps idx port.stack (copy_secondary port red idx).stack
unfolding copy_secondary
copy_secondary-Keeps port red idx i h = inl (refl, update_ne port.stack.rxbuf idx i _ h)

resend-Keeps :
    (red : Option Stack) (idx : ℕ) (wkc : ℤ) (again : Resend) (port : Port)
    → Keeps idx port.stack (resend red idx wkc again port).0.stack
unfolding resend
resend-Keeps none idx wkc again port = Keeps-refl idx port.stack
resend-Keeps (some red) idx wkc again port =
    elim (Bool-cases (is_noframe (resend_rounds idx again.rounds port.txbuflength red).1)) [
      | inl t ↦ rw t (Keeps-refl idx port.stack)
      | inr f ↦ rw f (copy_secondary-Keeps _ _ idx)
    ]

-- What is sent again comes from a transmit buffer: the primary stack stays.
again_out-stack :
    (idx : ℕ) (again : Resend) (w : Waiting) → (again_out idx again w).stack ≡ w.port.stack
unfolding again_out outframe_secondary copy_to_tx
again_out-stack idx again w = ground arith

decide_route-Keeps :
    (red : Stack) (idx : ℕ) (again : Resend) (w : Waiting)
    → Keeps idx w.port.stack (decide_route red idx again w).0.stack
unfolding decide_route
decide_route-Keeps red idx again w = elim (Bool-cases (crossed red idx w)) [
  | inl t ↦ rw t (copy_secondary-Keeps w.port red idx)
  | inr f ↦ elim (Bool-cases (open_ring red idx w)) [
    | inl b ↦
        rw (f, b)
          (subst
            (λ s.
              Keeps idx s
                (resend (again_out idx again w).red idx w.wkc again
                  (again_out idx again w)).0.stack)
            (again_out-stack idx again w)
            (resend-Keeps (again_out idx again w).red idx w.wkc again (again_out idx again w)))
    | inr n ↦ rw (f, n) (Keeps-refl idx w.port.stack)
  ]
]

redundant-Keeps :
    (red : Option Stack) (idx : ℕ) (again : Resend) (w : Waiting)
    → Keeps idx w.port.stack (redundant red idx again w).0.stack
unfolding redundant
redundant-Keeps none idx again w = Keeps-refl idx w.port.stack
redundant-Keeps (some red) idx again w = decide_route-Keeps red idx again w

pub waitinframe_red-Keeps :
    (port : Port) (idx : ℕ) (rounds : Rounds) (again : Resend)
    → Keeps idx port.stack (waitinframe_red port idx rounds again).0.stack
unfolding waitinframe_red
waitinframe_red-Keeps port idx rounds again =
    let start : Waiting = record { port = port; wkc = ec_noframe; wkc2 = start_wkc2 port.red } in
    let w : Waiting = poll_rounds idx rounds start in
    Keeps-trans idx port.stack w.port.stack (redundant w.port.red idx again w).0.stack
      (poll_rounds-Keeps idx rounds start) (redundant-Keeps w.port.red idx again w)

send_dummy-stack :
    (red : Option Stack) (port : Port) (idx : ℕ) (taken : Bool)
    → (send_dummy red port idx taken).stack ≡ port.stack
unfolding send_dummy
send_dummy-stack none port idx taken = refl
send_dummy-stack (some s) port idx taken = refl

outframe_red-Keeps :
    (port : Port) (idx : ℕ) (taken taken2 : Bool)
    → Keeps idx port.stack (outframe_red port idx taken taken2).stack
unfolding outframe_red
outframe_red-Keeps port idx taken taken2 =
    rw (send_dummy-stack) (λ i h. inl (update_ne port.stack.rxbufstat idx i _ h, refl))

try_once-Keeps :
    (port : Port) (idx : ℕ) (a : Attempt) → Keeps idx port.stack (try_once port idx a).0.stack
unfolding try_once
try_once-Keeps port idx a =
    Keeps-trans idx port.stack (outframe_red port idx a.taken a.taken2).stack
      (waitinframe_red (outframe_red port idx a.taken a.taken2) idx a.rounds a.again).0.stack
      (outframe_red-Keeps port idx a.taken a.taken2)
      (waitinframe_red-Keeps (outframe_red port idx a.taken a.taken2) idx a.rounds a.again)

-- A whole exchange for `idx`, over all its retries, leaves every other buffer with its status and
-- its bytes, except that a transmitted one may get the frame that it waits for.
pub srconfirm-Keeps :
    (port : Port) (idx : ℕ) (attempts : Attempts)
    → Keeps idx port.stack (srconfirm port idx attempts).0.stack
unfolding srconfirm
srconfirm-Keeps port idx (last_try a) = try_once-Keeps port idx a
srconfirm-Keeps port idx (retry a rest) = elim (Bool-cases (is_noframe (try_once port idx a).1)) [
  | inl t ↦ rw t (
      Keeps-trans idx port.stack (try_once port idx a).0.stack
        (srconfirm (try_once port idx a).0 idx rest).0.stack (try_once-Keeps port idx a)
        (srconfirm-Keeps (try_once port idx a).0 idx rest))
  | inr f ↦ rw f (try_once-Keeps port idx a)
]
