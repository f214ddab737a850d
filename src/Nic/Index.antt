-- ===== src/Nic/Index.antt =====
-- What `ecx_getindex` hands out.
use ether_cat_master.Prelude.{
  ℕ, zero, suc, ◌+◌, ◌-◌, ◌%◌, ◌<◌, ◌≡◌, ◌≢◌, refl, ap, true, false, Bool-cases, inl, inr, arith,
}
use ether_cat_master.Memory.{Array, update_self, update_ne}
use ether_cat_master.Nic.{
  BufState, empty, alloc, ec_maxbuf, Port, is_empty, next_index, find_index, first_index,
  setbufstat, getindex,
}

find_index-lt :
    (stat : Array BufState) (rounds i : ℕ) → i < ec_maxbuf → find_index stat rounds i < ec_maxbuf
unfolding find_index
find_index-lt stat zero i h = h
find_index-lt stat (suc rounds) i h =
    ground (arith, find_index-lt stat rounds (next_index i) (ground arith))

-- The index `k` places behind `i`.
abbrev behind : ℕ → ℕ → ℕ
behind i k = (i + k) % 16

next-behind : (i k : ℕ) → i < 16 → behind (next_index i) k ≡ behind i (suc k)
next-behind i k h = ground arith

is_empty-eq : (st : BufState) → is_empty st ≡ true → st ≡ empty
is_empty-eq st h = ground arith

round_trip : (i j : ℕ) → i < 16 → j < 16 → behind i ((j + 16 - i) % 16) ≡ j
round_trip i j h l = omega arith

step_found :
    (stat : Array BufState) (rounds i : ℕ)
    → is_empty (stat i) ≡ true
    → find_index stat (suc rounds) i ≡ i
unfolding find_index
step_found stat rounds i h = rw (h, find_index)

step_on :
    (stat : Array BufState) (rounds i : ℕ)
    → is_empty (stat i) ≡ false
    → find_index stat (suc rounds) i ≡ find_index stat rounds (next_index i)
unfolding find_index
step_on stat rounds i h = rw (h, find_index)

-- The search stops at the first unused index.
find_index-empty :
    (stat : Array BufState) (rounds i k : ℕ)
    → i < 16
    → k < rounds
    → stat (behind i k) ≡ empty
    → stat (find_index stat rounds i) ≡ empty
find_index-empty stat zero i k h l e = absurd (omega arith)
find_index-empty stat (suc rounds) i zero h l e =
    let here : behind i 0 ≡ i = omega arith in
    let used : is_empty (stat i) ≡ true = ap is_empty (rw here at e) in
    rw (step_found stat rounds i used) (rw here at e)
find_index-empty stat (suc rounds) i (suc k) h l e = elim (Bool-cases (is_empty (stat i))) [
  | inl t ↦ rw (step_found stat rounds i t) (is_empty-eq _ t)
  | inr f ↦ rw (step_on stat rounds i f) (
      find_index-empty stat rounds (next_index i) k (ground arith) (omega arith)
        (rw (next-behind i k h) e))
]

first_index-lt : (lastidx : ℕ) → first_index lastidx < 16
first_index-lt lastidx = ground arith

-- The index handed out is a buffer of the port and is marked allocated; no
-- other buffer's status changes; and if any of the port's buffers is unused, the
-- one handed out was.
pub getindex_lem :
    (port : Port) (j : ℕ)
    → let (idx, p) = getindex port in
      (idx < ec_maxbuf)
      × (p.stack.rxbufstat idx ≡ alloc)
      × ((i : ℕ) → i ≢ idx → p.stack.rxbufstat i ≡ port.stack.rxbufstat i)
      × (j < ec_maxbuf → port.stack.rxbufstat j ≡ empty → port.stack.rxbufstat idx ≡ empty)
unfolding getindex setbufstat
getindex_lem port j = (
  find_index-lt port.stack.rxbufstat 16 (first_index port.lastidx) (first_index-lt port.lastidx),
  update_self port.stack.rxbufstat _ alloc,
  λ i h. update_ne port.stack.rxbufstat _ i alloc h,
  λ h e.
      find_index-empty port.stack.rxbufstat 16 (first_index port.lastidx)
        ((j + 16 - first_index port.lastidx) % 16) (first_index-lt port.lastidx) (omega arith)
        (rw (round_trip (first_index port.lastidx) j (first_index-lt port.lastidx) h) e),
)

pub getindex-rxbuf : (port : Port) → (getindex port).1.stack.rxbuf ≡ port.stack.rxbuf
unfolding getindex setbufstat
getindex-rxbuf port = refl
