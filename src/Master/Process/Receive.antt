-- ===== src/Master/Process/Receive.antt =====
-- What receiving the process data does to the frame buffers.
use ether_cat_master.Prelude.{
  ℕ, zero, suc, ◌+◌, ◌-◌, ◌<◌, ◌≤◌, ◌≡◌, ◌≢◌, refl, sym, ap, ◌∙◌, ◌==◌, ==_iff, Option-cases, arith,
  Bool-cases, inl, inr, none, some,
}
use ether_cat_master.Prelude.Int.{ℤ, pos, negsuc}
use ether_cat_master.Memory.{Array, Buffer, update, update_self, update_ne}
use ether_cat_master.Nic.{BufState, Port, empty, setbufstat}
use ether_cat_master.Nic.Wait.{waitinframe}
use ether_cat_master.Nic.Wait.Confirm.{waitinframe_red-Keeps}
use ether_cat_master.Master.Process.{
  IndexStack, Receipt, Wait, pullindex, clearindex, take_frame, receive_frame, receive_frames,
  receive_processdata,
}

-- The status of a frame buffer.
abbrev status : Receipt → ℕ → BufState
status r i = r.port.stack.rxbufstat i

take_frame-port :
    (place : ℕ) (wkc2 : ℤ) (rx : Buffer) (r : Receipt)
    → ((take_frame place wkc2 rx r).port ≡ r.port)
      × ((take_frame place wkc2 rx r).idxstack ≡ r.idxstack)
unfolding take_frame
take_frame-port place (negsuc n) rx r = (refl, refl)
take_frame-port place (pos wkc2) rx r = (ground arith, ground arith)

module _ (place : ℕ) (w : Wait) (r : Receipt) where
  abbrev idx : ℕ
  idx = r.idxstack.idx place

  -- The port after the wait, and the receipt before its buffer is released.
  abbrev waited : Port
  waited = (waitinframe r.port idx w.rounds w.again).0

  abbrev used : Receipt
  used =
      take_frame place ((waitinframe r.port idx w.rounds w.again).1) (waited.stack.rxbuf idx)
        (record r { port = waited })

  used-port : (used.port ≡ waited) × (used.idxstack ≡ r.idxstack)
  used-port = take_frame-port place _ _ (record r { port = waited })

  pub receive_frame-idxstack : (receive_frame place w r).idxstack ≡ r.idxstack
  unfolding receive_frame
  receive_frame-idxstack = used-port.1

  -- The buffer of a frame is unused afterwards.
  receive_frame_releases : status (receive_frame place w r) idx ≡ empty
  unfolding receive_frame setbufstat
  receive_frame_releases = update_self used.port.stack.rxbufstat idx empty

  waited_stays : (i : ℕ) → i ≢ idx → status r i ≡ empty → waited.stack.rxbufstat i ≡ empty
  unfolding waitinframe
  waited_stays i other unused = elim (waitinframe_red-Keeps r.port idx w.rounds w.again i other) [
    | inl (same, bytes) ↦ same ∙ unused
    | inr (transmitted, received) ↦ ground (arith, unused)
  ]

  -- An unused buffer stays unused.
  receive_frame_stays : (i : ℕ) → status r i ≡ empty → status (receive_frame place w r) i ≡ empty
  unfolding receive_frame setbufstat
  receive_frame_stays i unused = elim (Bool-cases (i == idx)) [
    | inl mine ↦
        ap (update used.port.stack.rxbufstat idx empty) ((==_iff i idx).0 mine)
        ∙ receive_frame_releases
    | inr other ↦
        let apart : i ≢ idx = ground arith in
        update_ne used.port.stack.rxbufstat idx i empty apart
        ∙ ap (λ (p : Port). p.stack.rxbufstat i) used-port.0
        ∙ waited_stays i apart unused
  ]

-- One round of the loop.
module _ (rounds : ℕ) (waits : ℕ → Wait) (r : Receipt) where
  abbrev pub after_pull : ℕ → Receipt
  after_pull place =
      receive_frame place (waits place) (record r { idxstack = (pullindex r.idxstack).0 })

  pub receive_frames_stop :
      (pullindex r.idxstack).1 ≡ none → receive_frames (suc rounds) waits r ≡ r
  unfolding receive_frames
  receive_frames_stop h = rw (h, receive_frames) refl

  pub receive_frames_next :
      (place : ℕ)
      → (pullindex r.idxstack).1 ≡ some place
      → receive_frames (suc rounds) waits r ≡ receive_frames rounds waits (after_pull place)
  unfolding receive_frames
  receive_frames_next place h = rw (h, receive_frames) refl

receive_frames_stays :
    (rounds : ℕ) (waits : ℕ → Wait) (r : Receipt) (i : ℕ)
    → status r i ≡ empty
    → status (receive_frames rounds waits r) i ≡ empty
unfolding receive_frames
receive_frames_stays zero waits r i unused = unused
receive_frames_stays (suc rounds) waits r i unused = elim (Option-cases (pullindex r.idxstack).1) [
  | inl nothing ↦
      ap (λ (q : Receipt). status q i) (receive_frames_stop rounds waits r nothing) ∙ unused
  | inr (place, pulled) ↦
      ap (λ (q : Receipt). status q i) (receive_frames_next rounds waits r place pulled)
      ∙ receive_frames_stays rounds waits (after_pull rounds waits r place) i (
          receive_frame_stays place (waits place) (record r { idxstack = (pullindex r.idxstack).0 })
            i unused)
]

-- What the next pull does while frames are left.
pullindex-some :
    (s : IndexStack)
    → s.pulled < s.pushed
    → ((pullindex s).1 ≡ some s.pulled)
      × ((pullindex s).0.pulled ≡ s.pulled + 1)
      × ((pullindex s).0.pushed ≡ s.pushed)
      × ((pullindex s).0.idx ≡ s.idx)
unfolding pullindex
pullindex-some s h = ground arith

-- The receipt after the next frame: its buffer is unused, and the stack is the one that was pulled.
module _ (waits : ℕ → Wait) (r : Receipt) (left : r.idxstack.pulled < r.idxstack.pushed) where
  abbrev received_next : Receipt
  received_next =
      receive_frame r.idxstack.pulled (waits r.idxstack.pulled)
        (record r { idxstack = (pullindex r.idxstack).0 })

  received_next-idxstack : received_next.idxstack ≡ (pullindex r.idxstack).0
  received_next-idxstack = receive_frame-idxstack r.idxstack.pulled _ _

  received_next-empty : status received_next (r.idxstack.idx r.idxstack.pulled) ≡ empty
  received_next-empty =
      ap (λ (f : Array ℕ). status received_next (f r.idxstack.pulled))
        (sym (pullindex-some r.idxstack left).3)
      ∙ receive_frame_releases r.idxstack.pulled (waits r.idxstack.pulled)
          (record r { idxstack = (pullindex r.idxstack).0 })

  received_next-fields :
      (received_next.idxstack.pulled ≡ r.idxstack.pulled + 1)
      × (received_next.idxstack.pushed ≡ r.idxstack.pushed)
      × (received_next.idxstack.idx ≡ r.idxstack.idx)
  received_next-fields =
      let s = pullindex-some r.idxstack left in
      (
        ap (λ (t : IndexStack). t.pulled) received_next-idxstack ∙ s.1,
        ap (λ (t : IndexStack). t.pushed) received_next-idxstack ∙ s.2,
        ap (λ (t : IndexStack). t.idx) received_next-idxstack ∙ s.3,
      )

receive_frames_release :
    (rounds : ℕ) (waits : ℕ → Wait) (r : Receipt) (place : ℕ)
    → r.idxstack.pulled + rounds ≤ r.idxstack.pushed
    → r.idxstack.pulled ≤ place
    → place < r.idxstack.pulled + rounds
    → status (receive_frames rounds waits r) (r.idxstack.idx place) ≡ empty
receive_frames_release zero waits r place fits lo hi = absurd (omega arith)
receive_frames_release (suc rounds) waits r place fits lo hi =
    let left : r.idxstack.pulled < r.idxstack.pushed = omega arith in
    let q : Receipt = received_next waits r left in
    let f = received_next-fields waits r left in
    ap (λ (t : Receipt). status t (r.idxstack.idx place))
      (receive_frames_next rounds waits r r.idxstack.pulled (pullindex-some r.idxstack left).0)
    ∙ elim (Bool-cases (place == r.idxstack.pulled)) [
      | inl now ↦ receive_frames_stays rounds waits q (r.idxstack.idx place) (
          ap (λ (k : ℕ). status q (r.idxstack.idx k)) ((==_iff place r.idxstack.pulled).0 now)
          ∙ received_next-empty waits r left)
      | inr later ↦
          let apart : place ≢ r.idxstack.pulled = ground arith in
          ap (λ (g : Array ℕ). status (receive_frames rounds waits q) (g place)) (sym f.2)
          ∙ receive_frames_release rounds waits q place (omega (arith, f.0, f.1))
              (omega (arith, f.0, apart)) (omega (arith, f.0))
    ]

-- Receiving the process data ends with every frame buffer that was on the index stack unused and
-- the stack empty, whatever frames come in or stay away.
pub receive_processdata_releases :
    (port : Port) (s : IndexStack) (iomap dctime : Buffer) (waits : ℕ → Wait) (place : ℕ)
    → s.pulled ≤ place
    → place < s.pushed
    → let (r, wkc) = receive_processdata port s iomap dctime waits in
      (r.port.stack.rxbufstat (s.idx place) ≡ empty)
      × (r.idxstack.pushed ≡ 0)
      × (r.idxstack.pulled ≡ 0)
unfolding receive_processdata clearindex
receive_processdata_releases port s iomap dctime waits place lo hi = (
  receive_frames_release (s.pushed - s.pulled) waits _ place (omega arith) lo (omega arith),
  refl,
  refl,
)
