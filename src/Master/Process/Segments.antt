-- ===== src/Master/Process/Segments.antt =====
-- Where in the IO map process data may be written.
use ether_cat_master.Prelude.{
  ℕ, zero, suc, ◌+◌, ◌-◌, ◌<◌, ◌≤◌, ◌≡◌, ◌⊎◌, refl, ap, ◌∙◌, sym, arith, inl, inr, some,
  Option-cases, Bool-cases, ltb,
}
use mathlib.Core.Path.{subst}
use ether_cat_master.Prelude.Int.{ℤ, pos, negsuc}
use ether_cat_master.Memory.{Buffer, copy}
use ether_cat_master.Nic.{Port}
use ether_cat_master.Master.Process.{
  IndexStack, Receipt, Wait, pullindex, take_frame, receive_frame, receive_frames,
  receive_processdata,
}
use ether_cat_master.Master.Process.Receive.{
  receive_frames_stop, receive_frames_next, after_pull, receive_frame-idxstack,
}

-- A byte of the IO map that is in no segment on the stack.
abbrev pub Outside : IndexStack → ℕ → Type 0
Outside s j =
    (place : ℕ) → place < s.pushed → (j < s.segment place) ⊎ (s.segment place + s.length place ≤ j)

take_frame_iomap :
    (place : ℕ) (wkc2 : ℤ) (rx : Buffer) (r : Receipt) (j : ℕ)
    → (j < r.idxstack.segment place) ⊎ (r.idxstack.segment place + r.idxstack.length place ≤ j)
    → (take_frame place wkc2 rx r).iomap j ≡ r.iomap j
unfolding take_frame copy
take_frame_iomap place (negsuc n) rx r j out = refl
take_frame_iomap place (pos wkc2) rx r j out = ground arith

receive_frame_iomap :
    (place : ℕ) (w : Wait) (r : Receipt) (j : ℕ)
    → (j < r.idxstack.segment place) ⊎ (r.idxstack.segment place + r.idxstack.length place ≤ j)
    → (receive_frame place w r).iomap j ≡ r.iomap j
unfolding receive_frame
receive_frame_iomap place w r j out = take_frame_iomap place _ _ _ j out

pullindex_place : (s : IndexStack) (place : ℕ) → (pullindex s).1 ≡ some place → place < s.pushed
unfolding pullindex
pullindex_place s place h = ground arith

-- Pulling an index moves no segment.
pullindex-Outside : (s : IndexStack) (j : ℕ) → Outside s j → Outside (pullindex s).0 j
unfolding pullindex
pullindex-Outside s j out = elim (Bool-cases (ltb s.pulled s.pushed)) [
  | inl left ↦ rw left out
  | inr done ↦ rw done out
]

pullindex-pushed : (s : IndexStack) → (pullindex s).0.pushed ≡ s.pushed
unfolding pullindex
pullindex-pushed s = ground arith

receive_frames_iomap :
    (rounds : ℕ) (waits : ℕ → Wait) (r : Receipt) (j : ℕ)
    → Outside r.idxstack j
    → (receive_frames rounds waits r).iomap j ≡ r.iomap j
unfolding receive_frames
receive_frames_iomap zero waits r j out = refl
receive_frames_iomap (suc rounds) waits r j out = elim (Option-cases (pullindex r.idxstack).1) [
  | inl nothing ↦ ap (λ (q : Receipt). q.iomap j) (receive_frames_stop rounds waits r nothing)
  | inr (place, pulled) ↦
      ap (λ (q : Receipt). q.iomap j) (receive_frames_next rounds waits r place pulled)
      ∙ receive_frames_iomap rounds waits (after_pull rounds waits r place) j (
          subst (λ (s : IndexStack). Outside s j)
            (sym (
              receive_frame-idxstack place (waits place)
                (record r { idxstack = (pullindex r.idxstack).0 })))
            (pullindex-Outside r.idxstack j out))
      ∙ receive_frame_iomap place (waits place) (record r { idxstack = (pullindex r.idxstack).0 }) j
          (pullindex-Outside r.idxstack j out place
            (omega (arith, pullindex_place r.idxstack place pulled, pullindex-pushed r.idxstack)))
]

-- Receiving the process data writes to the segments that are on the index stack and nowhere else in
-- the IO map, whatever frames come in.
pub receive_processdata_iomap :
    (port : Port) (s : IndexStack) (iomap dctime : Buffer) (waits : ℕ → Wait) (j : ℕ)
    → Outside s j
    → (receive_processdata port s iomap dctime waits).0.iomap j ≡ iomap j
unfolding receive_processdata
receive_processdata_iomap port s iomap dctime waits j out =
    receive_frames_iomap (s.pushed - s.pulled) waits _ j out
