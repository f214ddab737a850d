-- ===== src/Config/Behind.antt =====
-- The inputs begin in the segment where the outputs end.
use ether_cat_master.Prelude.{
  ℕ, zero, suc, ◌+◌, ◌-◌, ◌<◌, ◌≤◌, ◌≡◌, arith, inl, inr, Bool-cases, ltb, leb, Bool, true, false,
  ◌&&◌, List, [], ◌∷◌,
}
use ether_cat_master.Memory.{update}
use ether_cat_master.Config.{
  Layout, close_segment, make_room, split, map_slave, map_slaves, map_bits, map_status,
  map_statuses, status_size, store_open, ec_maxiosegments,
}

-- The first `size` bytes of segment `place` are there, in the list or in the open segment.
pub record Starts (place size : ℕ) (l : Layout) : Type 0 where
  pub begun : place ≤ l.currentsegment
  pub opened : l.currentsegment ≡ place → size ≤ l.segmentsize
  pub fits : l.currentsegment ≡ place → size ≤ l.segmentmaxsize
  pub closed : place < l.currentsegment → size ≤ l.io_segment place

module _ (place size : ℕ) where
  close_segment-Starts :
      (much : ℕ) (l : Layout)
      → (l.currentsegment ≡ place → size ≤ much)
      → Starts place size l
      → Starts place size (close_segment l much)
  unfolding close_segment update
  close_segment-Starts much l enough h =
      let begun = h.begun in
      let closed = h.closed in
      record {
        begun = omega arith;
        opened = λ same. omega (arith, same, begun);
        fits = λ same. omega (arith, same, begun);
        closed = λ behind. ground (arith, enough, closed, begun);
      }

  make_room-Starts :
      (diff : ℕ) (l : Layout) → Starts place size l → Starts place size (make_room diff l)
  unfolding make_room
  make_room-Starts diff l h =
      elim (Bool-cases (
        ltb l.segmentmaxsize (l.segmentsize + diff)
        && leb diff l.segmentmaxsize
        && ltb l.currentsegment ec_maxiosegments)) [
          | inl closes ↦ rw closes (close_segment-Starts l.segmentsize l h.opened h)
          | inr fits ↦ rw fits h
        ]

  counted :
      (wkc : ℕ) (l : Layout) → Starts place size l → Starts place size (record l { wkc = wkc })
  counted wkc l h = record { begun = h.begun; opened = h.opened; fits = h.fits; closed = h.closed }

  with_data :
      (diff : ℕ) (l : Layout)
      → Starts place size l
      → Starts place size (record l { segmentsize = l.segmentsize + diff })
  with_data diff l h =
      let opened = h.opened in
      record {
        begun = h.begun;
        opened = λ same. omega (arith, opened same);
        fits = h.fits;
        closed = h.closed;
      }

  split-Starts :
      (rounds : ℕ) (l : Layout) → Starts place size l → Starts place size (split rounds l)
  unfolding split
  split-Starts zero l h = h
  split-Starts (suc rounds) l h =
      elim (Bool-cases
        (ltb l.segmentmaxsize l.segmentsize && ltb l.currentsegment ec_maxiosegments)) [
          | inl closes ↦ rw closes (
              split-Starts rounds _ (
                counted (l.wkc + 1) (close_segment l l.segmentmaxsize)
                  (close_segment-Starts l.segmentmaxsize l h.fits h)))
          | inr fits ↦ rw fits h
        ]

  map_slave-Starts :
      (diff : ℕ) (l : Layout) → Starts place size l → Starts place size (map_slave diff l)
  unfolding map_slave
  map_slave-Starts diff l h =
      let start_of : Layout = make_room diff l in
      let full : Layout =
        split (ec_maxiosegments - start_of.currentsegment)
          (record start_of { segmentsize = start_of.segmentsize + diff }) in
      let split_h : Starts place size full =
        split-Starts (ec_maxiosegments - start_of.currentsegment) _
          (with_data diff start_of (make_room-Starts diff l h)) in
      elim (Bool-cases (ltb 0 full.segmentsize && ltb 0 diff)) [
        | inl counts ↦ rw counts (counted (full.wkc + 1) full split_h)
        | inr not ↦ rw not split_h
      ]

  pub map_slaves-Starts :
      (diffs : List ℕ) (l : Layout) → Starts place size l → Starts place size (map_slaves diffs l)
  unfolding map_slaves
  map_slaves-Starts [] l h = h
  map_slaves-Starts (diff ∷ diffs) l h =
      map_slaves-Starts diffs (map_slave diff l) (map_slave-Starts diff l h)

  pub map_bits-Starts :
      (bits : Bool) (l : Layout) → Starts place size l → Starts place size (map_bits false bits l)
  unfolding map_bits close_segment update
  map_bits-Starts false l h = h
  map_bits-Starts true l h =
      elim (Bool-cases
        (ltb l.segmentmaxsize (l.segmentsize + 1) && ltb l.currentsegment ec_maxiosegments)) [
          | inl closes ↦
              let begun = h.begun in
              let opened = h.opened in
              let closed = h.closed in
              rw closes (record {
                begun = omega arith;
                opened = λ same. omega (arith, same, begun);
                fits = λ same. omega (arith, same, begun);
                closed = λ behind. ground (arith, opened, closed, begun);
              })
          | inr fits ↦ rw fits (with_data 1 l h)
        ]

  pub store_open_first : (l : Layout) → Starts place size l → size ≤ (store_open l).io_segment place
  unfolding store_open update
  store_open_first l h =
      let begun = h.begun in
      let opened = h.opened in let closed = h.closed in ground (arith, opened, closed, begun)

  pub store_open-Starts : (l : Layout) → Starts place size l → Starts place size (store_open l)
  unfolding store_open update
  store_open-Starts l h =
      let closed = h.closed in
      record {
        begun = h.begun;
        opened = h.opened;
        fits = h.fits;
        closed = λ behind. ground (arith, closed);
      }

  map_status-Starts :
      (diff : ℕ) (l : Layout) → Starts place size l → Starts place size (map_status diff l)
  unfolding map_status update
  map_status-Starts diff l h =
      let begun = h.begun in
      let opened = h.opened in
      let fits = h.fits in
      let closed = h.closed in
      record {
        begun = ground (arith, begun);
        opened = λ same. ground (arith, same, begun, opened);
        fits = λ same. ground (arith, same, begun, fits);
        closed = λ behind. ground (arith, behind, begun, opened, closed);
      }

  pub map_statuses-Starts :
      (mailboxes : List Bool) (l : Layout)
      → Starts place size l
      → Starts place size (map_statuses mailboxes l)
  unfolding map_statuses
  map_statuses-Starts [] l h = h
  map_statuses-Starts (mailbox ∷ mailboxes) l h =
      map_statuses-Starts mailboxes (map_status (status_size mailbox) l)
        (map_status-Starts (status_size mailbox) l h)
