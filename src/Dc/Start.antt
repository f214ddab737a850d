-- ===== src/Dc/Start.antt =====
-- When the first SYNC0 comes.
use native.Mathlib.Nat.{
  div-add-mod', mod-lt, mul-mod_left, add-mod_right, mod-eq_of_lt, div-le_self, add-mul,
}
use ether_cat_master.Prelude.{
  ℕ, ◌+◌, ◌*◌, ◌/◌, ◌%◌, ◌<◌, ◌≤◌, ◌≡◌, ap, ◌∙◌, Bool, if◌then◌else◌, arith, lt→ltb,
}
use ether_cat_master.Prelude.Int.{ℤ, pos, negsuc, ◌+ℤ◌, ◌*ℤ◌, neg_part, pos_part}
use ether_cat_master.Dc.{wrap, int64, quot}
use ether_cat_master.Dc.Sync.{sync_delay, start_time, true_cycl_time}

-- A value in its range stays as it is.
wrap-small : (half : ℕ) (z : ℤ) → pos_part z < half → neg_part z ≤ half → wrap half z ≡ z
unfolding wrap
wrap-small half (pos n) above below =
    let same : n % (2 * half) ≡ n = mod-eq_of_lt (omega arith) in rw same (ground arith)
wrap-small half (negsuc n) above below =
    let same : n % (2 * half) ≡ n = mod-eq_of_lt (omega arith) in rw same (ground arith)

pos_add : (a b : ℕ) → pos a +ℤ pos b ≡ pos (a + b)
unfolding ◌+ℤ◌
pos_add a b = ground arith

pos_mul : (a b : ℕ) → pos a *ℤ pos b ≡ pos (a * b)
unfolding ◌*ℤ◌
pos_mul a b = ground arith

sum_parts :
    (m : ℕ) (shift : ℤ)
    → (pos_part (pos m +ℤ shift) ≤ m + pos_part shift)
      × (neg_part (pos m +ℤ shift) ≤ neg_part shift)
unfolding ◌+ℤ◌
sum_parts m shift = (ground arith, ground arith)

-- The end of the cycle that `n` lies in.
abbrev cycle_end : ℕ → ℕ → ℕ
cycle_end n cycle = n / cycle * cycle + cycle

cycle_end_lem :
    (n cycle : ℕ)
    → 0 < cycle
    → (cycle_end n cycle % cycle ≡ 0) × (n < cycle_end n cycle) × (cycle_end n cycle ≤ n + cycle)
cycle_end_lem n cycle h = (
  add-mod_right (n / cycle * cycle) cycle ∙ mul-mod_left (n / cycle) cycle,
  omega (arith, div-add-mod' n cycle, mod-lt n h),
  omega (arith, div-add-mod' n cycle),
)

-- The trigger before it is put in 64 bits.
whole_trigger :
    (n cycle : ℕ) (shift : ℤ)
    → quot (pos n) cycle *ℤ pos cycle +ℤ pos cycle +ℤ shift ≡ pos (cycle_end n cycle) +ℤ shift
whole_trigger n cycle shift =
    ap (λ (z : ℤ). z +ℤ pos cycle +ℤ shift) (pos_mul (n / cycle) cycle)
    ∙ ap (λ (z : ℤ). z +ℤ shift) (pos_add (n / cycle * cycle) cycle)

abbrev trigger : ℤ → ℕ → ℤ → ℤ
trigger local cycle shift = int64 (quot local cycle *ℤ pos cycle +ℤ pos cycle +ℤ shift)

used_trigger :
    (t1 tested cycle : ℕ) (shift : ℤ)
    → 0 < tested
    → start_time (pos t1) tested cycle shift
      ≡ trigger (int64 (pos t1 +ℤ pos sync_delay)) cycle shift
unfolding start_time
used_trigger t1 tested cycle shift used =
    ap
      (λ (b : Bool). int64 (
        if b
        then quot (int64 (pos t1 +ℤ pos sync_delay)) cycle *ℤ pos cycle +ℤ pos cycle +ℤ shift
        else pos t1 +ℤ pos sync_delay +ℤ shift))
      (lt→ltb 0 tested used)

local_time :
    (t1 : ℕ) → t1 < 4611686018427387904 → int64 (pos t1 +ℤ pos sync_delay) ≡ pos (t1 + sync_delay)
local_time t1 small =
    ap int64 (pos_add t1 sync_delay)
    ∙ wrap-small 9223372036854775808 (pos (t1 + sync_delay)) (omega arith) (omega arith)

-- With a shift of 32 bits and a local time below 2 ^ 62 the first trigger is a whole multiple of the
-- cycle plus the shift, and that multiple comes after the delay, by at most one cycle.
pub start_time_lem :
    (t1 tested cycle : ℕ) (shift : ℤ)
    → 0 < tested
    → 0 < cycle
    → cycle < 4294967296
    → t1 < 4611686018427387904
    → pos_part shift < 2147483648
    → neg_part shift ≤ 2147483648
    → (m : ℕ) × (start_time (pos t1) tested cycle shift ≡ pos m +ℤ shift)
      × (m % cycle ≡ 0)
      × (t1 + sync_delay < m)
      × (m ≤ t1 + sync_delay + cycle)
start_time_lem t1 tested cycle shift used some_cycle word small above below =
    let n = t1 + sync_delay in
    let (whole, after, within) = cycle_end_lem n cycle some_cycle in
    (
      cycle_end n cycle,
      used_trigger t1 tested cycle shift used
          ∙ ap (λ (z : ℤ). trigger z cycle shift) (local_time t1 small)
          ∙ ap int64 (whole_trigger n cycle shift)
          ∙ wrap-small 9223372036854775808 (pos (cycle_end n cycle) +ℤ shift)
              (omega (arith, (sum_parts (cycle_end n cycle) shift).0))
              (omega (arith, (sum_parts (cycle_end n cycle) shift).1)),
      whole,
      after,
      within,
    )

one_more : (q c : ℕ) → (q + 1) * c ≡ q * c + c
one_more q c = add-mul q 1 c ∙ omega arith

-- The product of the code is the end of a cycle.
true_cycl_time_end :
    (cycl_time0 cycl_time1 : ℕ)
    → 0 < cycl_time0
    → cycl_time0 + cycl_time1 < 4294967296
    → true_cycl_time cycl_time0 cycl_time1 ≡ cycle_end cycl_time1 cycl_time0
unfolding true_cycl_time
true_cycl_time_end cycl_time0 cycl_time1 some_cycle small =
    let (whole, after, within) = cycle_end_lem cycl_time1 cycl_time0 some_cycle in
    let q = cycl_time1 / cycl_time0 in
    ap (λ n. n * cycl_time0 % 4294967296)
      (mod-eq_of_lt {n = q + 1} {m = 4294967296} (omega (arith, div-le_self cycl_time1 cycl_time0)))
    ∙ ap (λ n. n % 4294967296) (one_more q cycl_time0)
    ∙ mod-eq_of_lt (omega arith)

-- Without an overflow of 32 bits the true cycle of `ecx_dcsync01` is a whole number of SYNC0 cycles, and
-- the smallest that is longer than the cycle of SYNC1.
pub true_cycl_time_lem :
    (cycl_time0 cycl_time1 : ℕ)
    → 0 < cycl_time0
    → cycl_time0 + cycl_time1 < 4294967296
    → (true_cycl_time cycl_time0 cycl_time1 % cycl_time0 ≡ 0)
      × (cycl_time1 < true_cycl_time cycl_time0 cycl_time1)
      × (true_cycl_time cycl_time0 cycl_time1 ≤ cycl_time1 + cycl_time0)
true_cycl_time_lem cycl_time0 cycl_time1 some_cycle small =
    rw (true_cycl_time_end cycl_time0 cycl_time1 some_cycle small)
      (cycle_end_lem cycl_time1 cycl_time0 some_cycle)
