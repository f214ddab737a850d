-- ===== src/Config/Bounds.antt =====
-- The segments of a layout fit in a frame.
use ether_cat_master.Prelude.{
  ℕ, zero, suc, ◌+◌, ◌-◌, ◌<◌, ◌≤◌, ◌≡◌, arith, inl, inr, Bool-cases, ltb, leb, Bool, true, false,
  ◌&&◌, List, [], ◌∷◌,
}
use ether_cat_master.Memory.{update}
use ether_cat_master.Config.{
  Layout, close_segment, make_room, split, map_slave, map_slaves, map_bits, map_status,
  map_statuses, store_open, ec_maxiosegments, ec_maxlrwdata, ec_firstdcdatagram, status_size,
}
use ether_cat_master.Config.Sums.{map_status_grows, map_statuses_grows}

-- Closed segments fit in a frame, the open one in what it may have, as long as there are segments.
pub record Fits (l : Layout) : Type 0 where
  pub closed : (i : ℕ) → l.io_segment i ≤ 1486
  pub least : 1466 ≤ l.segmentmaxsize
  pub most : l.segmentmaxsize ≤ 1486
  pub opened : l.currentsegment < 64 → l.segmentsize ≤ l.segmentmaxsize

-- Fits, but for the size of the open segment.
record IsBuilt (l : Layout) : Type 0 where
  closed : (i : ℕ) → l.io_segment i ≤ 1486
  least : 1466 ≤ l.segmentmaxsize
  most : l.segmentmaxsize ≤ 1486

close_segment-IsBuilt :
    (size : ℕ) (l : Layout) → size ≤ 1486 → IsBuilt l → IsBuilt (close_segment l size)
unfolding close_segment update
close_segment-IsBuilt size l small h = record {
  closed = λ i. let old = h.closed i in ground arith;
  least = omega arith;
  most = omega arith;
}

make_room-IsBuilt : (diff : ℕ) (l : Layout) → Fits l → IsBuilt (make_room diff l)
unfolding make_room
make_room-IsBuilt diff l h =
    let built : IsBuilt l = record { closed = h.closed; least = h.least; most = h.most } in
    elim (Bool-cases (
      ltb l.segmentmaxsize (l.segmentsize + diff)
      && leb diff l.segmentmaxsize
      && ltb l.currentsegment ec_maxiosegments)) [
        | inl closes ↦
            let below : l.currentsegment < 64 = ground (arith, closes) in
            rw closes
              (close_segment-IsBuilt l.segmentsize l (omega (arith, h.opened below, h.most)) built)
        | inr fits ↦ rw fits built
      ]

more :
    (rounds : ℕ) (l : Layout)
    → 64 ≤ suc rounds + l.currentsegment
    → 64 ≤ rounds + (close_segment l l.segmentmaxsize).currentsegment
unfolding close_segment
more rounds l enough = omega (arith, enough)

split-Fits :
    (rounds : ℕ) (l : Layout) → 64 ≤ rounds + l.currentsegment → IsBuilt l → Fits (split rounds l)
unfolding split
split-Fits zero l enough h = record {
  closed = h.closed;
  least = h.least;
  most = h.most;
  opened = λ below. omega (arith, below, enough);
}
split-Fits (suc rounds) l enough h =
    elim (Bool-cases
      (ltb l.segmentmaxsize l.segmentsize && ltb l.currentsegment ec_maxiosegments)) [
        | inl closes ↦
            let next : IsBuilt (close_segment l l.segmentmaxsize) =
              close_segment-IsBuilt l.segmentmaxsize l h.most h in
            rw closes (
              split-Fits rounds (record (close_segment l l.segmentmaxsize) { wkc = l.wkc + 1 })
                (more rounds l enough)
                (record { closed = next.closed; least = next.least; most = next.most }))
        | inr fits ↦ rw fits (record {
          closed = h.closed;
          least = h.least;
          most = h.most;
          opened = λ below. ground (arith, below, fits);
        })
      ]

map_slave-Fits : (diff : ℕ) (l : Layout) → Fits l → Fits (map_slave diff l)
unfolding map_slave
map_slave-Fits diff l h =
    let start_of : Layout = make_room diff l in
    let full : Layout =
      split (ec_maxiosegments - start_of.currentsegment)
        (record start_of { segmentsize = start_of.segmentsize + diff }) in
    let built = make_room-IsBuilt diff l h in
    let fits : Fits full =
      split-Fits (ec_maxiosegments - start_of.currentsegment) _ (omega arith)
        (record { closed = built.closed; least = built.least; most = built.most }) in
    elim (Bool-cases (ltb 0 full.segmentsize && ltb 0 diff)) [
      | inl counts ↦ rw counts (record {
        closed = fits.closed;
        least = fits.least;
        most = fits.most;
        opened = fits.opened;
      })
      | inr not ↦ rw not fits
    ]

pub map_slaves-Fits : (diffs : List ℕ) (l : Layout) → Fits l → Fits (map_slaves diffs l)
unfolding map_slaves
map_slaves-Fits [] l h = h
map_slaves-Fits (diff ∷ diffs) l h =
    map_slaves-Fits diffs (map_slave diff l) (map_slave-Fits diff l h)

pub map_bits-Fits : (outputs bits : Bool) (l : Layout) → Fits l → Fits (map_bits outputs bits l)
unfolding map_bits close_segment update
map_bits-Fits outputs false l h = h
map_bits-Fits outputs true l h =
    elim (Bool-cases
      (ltb l.segmentmaxsize (l.segmentsize + 1) && ltb l.currentsegment ec_maxiosegments)) [
        | inl closes ↦
            let below : l.currentsegment < 64 = ground (arith, closes) in
            let size = h.opened below in
            let least = h.least in
            let most = h.most in
            rw closes (record {
              closed = λ i. let old = h.closed i in ground arith;
              least = ground arith;
              most = ground arith;
              opened = λ below. ground arith;
            })
        | inr fits ↦ rw fits (record {
          closed = h.closed;
          least = h.least;
          most = h.most;
          opened = λ below. ground (arith, below, fits);
        })
      ]

map_status-Fits :
    (mailbox : Bool) (l : Layout)
    → l.currentsegment < 63
    → Fits l
    → Fits (map_status (status_size mailbox) l)
unfolding map_status update
map_status-Fits mailbox l room h =
    let size = h.opened (omega (arith, room)) in
    let least = h.least in
    let most = h.most in
    elim (Bool-cases
      (ltb (ec_maxlrwdata - ec_firstdcdatagram) (l.segmentsize + status_size mailbox))) [
        | inl closes ↦
            let left : ltb l.currentsegment (ec_maxiosegments - 1) ≡ true = ground (arith, room) in
            rw (closes, left)
              (record {
                closed = λ i. let old = h.closed i in ground arith;
                least = least;
                most = most;
                opened = λ below. ground arith;
              })
        | inr fits ↦ rw fits (record {
          closed = h.closed;
          least = least;
          most = most;
          opened = λ below. ground (arith, fits);
        })
      ]

pub map_statuses-Fits :
    (mailboxes : List Bool) (l : Layout)
    → (map_statuses mailboxes l).currentsegment < 63
    → Fits l
    → Fits (map_statuses mailboxes l)
unfolding map_statuses
map_statuses-Fits [] l room h = h
map_statuses-Fits (mailbox ∷ mailboxes) l room h =
    let next : Layout = map_status (status_size mailbox) l in
    map_statuses-Fits mailboxes next room (
      map_status-Fits mailbox l
        (omega (
          arith,
          room,
          map_status_grows (status_size mailbox) l,
          map_statuses_grows mailboxes next,
        ))
        h)

pub store_open-Fits : (l : Layout) → l.currentsegment < 64 → Fits l → Fits (store_open l)
unfolding store_open update
store_open-Fits l room h =
    let size = h.opened room in
    let most = h.most in
    record {
      closed = λ i. let old = h.closed i in ground arith;
      least = h.least;
      most = h.most;
      opened = h.opened;
    }
