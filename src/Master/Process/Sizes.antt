-- ===== src/Master/Process/Sizes.antt =====
-- The sizes of the segments in the loops of `ecx_send_processdata_group`.
use ether_cat_master.Prelude.{ℕ, zero, suc, ◌+◌, ◌-◌, ◌<◌, ◌≤◌, ◌≡◌, ◌∙◌, sym, arith, ◌%◌}
use ether_cat_master.Memory.{Array}
use ether_cat_master.Master.Process.{IndexStack}
use ether_cat_master.Master.Process.Send.{ProcessGroup, both_loop, read_loop, write_loop}
use ether_cat_master.Master.Process.Cover.{Tiles, Fills, Extends}

-- The bytes of `n` segments from number `i` on.
unfoldable pub segments_size : Array ℕ → ℕ → ℕ → ℕ
segments_size io zero i = 0
segments_size io (suc n) i = io i + segments_size io n (i + 1)

pub Tiles-kept :
    (n k start total : ℕ) (s r : IndexStack)
    → k + n ≤ s.pushed
    → Extends s r
    → Tiles n s k start total
    → Tiles n r k start total
unfolding Tiles
Tiles-kept zero k start total s r small e t = t
Tiles-kept (suc n) k start total s r small (more, same) (begins, fits, rest) =
    let (segment, length) = same k (omega (arith, small)) in
    (
      segment ∙ begins,
      rw length fits,
      rw length (
          Tiles-kept n (k + 1) (start + s.length k) (total - s.length k) s r (omega (arith, small))
            (more, same) rest),
    )

pub Tiles-move :
    (n m k i start place total : ℕ) (r : IndexStack)
    → n ≡ m
    → k ≡ i
    → start ≡ place
    → Tiles n r k start total
    → Tiles m r i place total
Tiles-move n m k i start place total r e1 e2 e3 t = rw (sym e1, sym e2, sym e3) t

module _ (g : ProcessGroup) (small : (i : ℕ) → g.io_segment i < 65536) where
  whole : (i : ℕ) → g.io_segment i % 65536 ≡ g.io_segment i
  whole i = omega (arith, small i)

  pub both-Fills :
      (shift n i left : ℕ)
      → segments_size g.io_segment (suc n) i ≡ left
      → Fills n (both_loop g shift) i left
  unfolding Fills segments_size
  both-Fills shift zero i left e = ground (arith, whole i)
  both-Fills shift (suc n) i left e =
      (omega (arith, whole i, e), both-Fills shift n (i + 1) _ (ground (arith, whole i, e)))

  read-Fills :
      (n i left : ℕ)
      → g.isegment < i
      → segments_size g.io_segment (suc n) i ≡ left
      → Fills n (read_loop g) i left
  unfolding Fills segments_size
  read-Fills zero i left later e = ground (arith, whole i)
  read-Fills (suc n) i left later e = (
    ground (arith, whole i, e),
    read-Fills n (i + 1) _ (omega arith) (ground (arith, whole i, e)),
  )

  pub read_first-Fills :
      (n left : ℕ)
      → g.ioffset ≤ g.io_segment g.isegment
      → segments_size g.io_segment (suc n) g.isegment ≡ left + g.ioffset
      → Fills n (read_loop g) g.isegment left
  unfolding Fills segments_size
  read_first-Fills zero left inside e = ground (arith, small g.isegment)
  read_first-Fills (suc n) left inside e = (
    ground (arith, small g.isegment, e),
    read-Fills n (g.isegment + 1) _ (omega arith) (ground (arith, small g.isegment, e)),
  )

  pub write-Fills :
      (n i left : ℕ) → left ≤ segments_size g.io_segment (suc n) i → Fills n (write_loop g) i left
  unfolding Fills segments_size
  write-Fills zero i left e = ground (arith, whole i)
  write-Fills (suc n) i left e =
      (ground (arith, whole i, e), write-Fills n (i + 1) _ (ground (arith, whole i, e)))
