-- ===== src/Config/Sums.antt =====
-- The segments of a layout add up.
use ether_cat_master.Prelude.{
  ℕ, zero, suc, ◌+◌, ◌-◌, ◌<◌, ◌≤◌, ◌≡◌, refl, arith, inl, inr, Bool-cases, ltb, leb, Bool, true,
  false, ◌&&◌, List, [], ◌∷◌,
}
use ether_cat_master.Memory.{Array, update}
use ether_cat_master.Master.Process.Sizes.{segments_size}
use ether_cat_master.Config.{
  Layout, close_segment, make_room, split, map_slave, map_slaves, map_bits, map_status,
  map_statuses, store_open, ec_maxiosegments, status_size, bytes_of, byte_of, statuses_of,
  ec_maxlrwdata, ec_firstdcdatagram,
}
use mathlib.Core.Path.{subst}

sum_update :
    (io : Array ℕ) (n i c x : ℕ)
    → i + n ≡ c
    → segments_size (update io c x) (suc n) i ≡ segments_size io n i + x
unfolding segments_size update
sum_update io zero i c x e = ground arith
sum_update io (suc n) i c x e =
    let rest = sum_update io n (i + 1) c x (omega (arith, e)) in ground arith

sum_close :
    (io : Array ℕ) (start c x : ℕ)
    → start ≤ c
    → segments_size (update io c x) (c + 1 - start) start ≡ segments_size io (c - start) start + x
sum_close io start c x h =
    let count : suc (c - start) ≡ c + 1 - start = omega (arith, h) in
    subst
      (λ (n : ℕ). segments_size (update io c x) n start ≡ segments_size io (c - start) start + x)
      count (sum_update io (c - start) start c x (omega (arith, h)))

-- The data since segment `start`, with those of the open segment.
pub record Holds (start total : ℕ) (l : Layout) : Type 0 where
  pub begun : start ≤ l.currentsegment
  pub adds_up : segments_size l.io_segment (l.currentsegment - start) start + l.segmentsize ≡ total

close_segment-Holds :
    (start total size : ℕ) (l : Layout)
    → size ≤ l.segmentsize
    → Holds start total l
    → Holds start total (close_segment l size)
unfolding close_segment
close_segment-Holds start total size l small h = record {
  begun = omega (arith, h.begun);
  adds_up = omega (arith, h.adds_up, sum_close l.io_segment start l.currentsegment size h.begun);
}

with_data :
    (start total diff : ℕ) (l : Layout)
    → Holds start total l
    → Holds start (total + diff) (record l { segmentsize = l.segmentsize + diff })
with_data start total diff l h = record { begun = h.begun; adds_up = omega (arith, h.adds_up) }

counted :
    (start total wkc : ℕ) (l : Layout)
    → Holds start total l
    → Holds start total (record l { wkc = wkc })
counted start total wkc l h = record { begun = h.begun; adds_up = h.adds_up }

make_room-Holds :
    (start total diff : ℕ) (l : Layout) → Holds start total l → Holds start total (make_room diff l)
unfolding make_room
make_room-Holds start total diff l h =
    elim (Bool-cases (
      ltb l.segmentmaxsize (l.segmentsize + diff)
      && leb diff l.segmentmaxsize
      && ltb l.currentsegment ec_maxiosegments)) [
        | inl closes ↦ rw closes (close_segment-Holds start total l.segmentsize l (omega arith) h)
        | inr fits ↦ rw fits h
      ]

split-Holds :
    (rounds start total : ℕ) (l : Layout) → Holds start total l → Holds start total (split rounds l)
unfolding split
split-Holds zero start total l h = h
split-Holds (suc rounds) start total l h =
    elim (Bool-cases
      (ltb l.segmentmaxsize l.segmentsize && ltb l.currentsegment ec_maxiosegments)) [
        | inl closes ↦ rw closes (
            split-Holds rounds start total _ (
              counted start total (l.wkc + 1) (close_segment l l.segmentmaxsize)
                (close_segment-Holds start total l.segmentmaxsize l (ground (arith, closes)) h)))
        | inr fits ↦ rw fits h
      ]

map_slave-Holds :
    (start total diff : ℕ) (l : Layout)
    → Holds start total l
    → Holds start (total + diff) (map_slave diff l)
unfolding map_slave
map_slave-Holds start total diff l h =
    let start_of : Layout = make_room diff l in
    let full : Layout =
      split (ec_maxiosegments - start_of.currentsegment)
        (record start_of { segmentsize = start_of.segmentsize + diff }) in
    let split_h : Holds start (total + diff) full =
      split-Holds (ec_maxiosegments - start_of.currentsegment) start (total + diff) _
        (with_data start total diff start_of (make_room-Holds start total diff l h)) in
    elim (Bool-cases (ltb 0 full.segmentsize && ltb 0 diff)) [
      | inl counts ↦ rw counts (counted start (total + diff) (full.wkc + 1) full split_h)
      | inr not ↦ rw not split_h
    ]

pub map_slaves-Holds :
    (diffs : List ℕ) (start total : ℕ) (l : Layout)
    → Holds start total l
    → Holds start (total + bytes_of diffs) (map_slaves diffs l)
unfolding map_slaves bytes_of
map_slaves-Holds [] start total l h = subst (λ (n : ℕ). Holds start n l) (omega arith) h
map_slaves-Holds (diff ∷ diffs) start total l h =
    subst (λ (n : ℕ). Holds start n (map_slaves diffs (map_slave diff l))) (omega arith)
      (map_slaves-Holds diffs start (total + diff) (map_slave diff l)
        (map_slave-Holds start total diff l h))

sum_kept :
    (io : Array ℕ) (n i c x : ℕ)
    → i + n ≤ c
    → segments_size (update io c x) n i ≡ segments_size io n i
unfolding segments_size update
sum_kept io zero i c x h = refl
sum_kept io (suc n) i c x h =
    let rest = sum_kept io n (i + 1) c x (omega (arith, h)) in ground arith

pub store_open-Holds :
    (start total : ℕ) (l : Layout) → Holds start total l → Holds start total (store_open l)
unfolding store_open
store_open-Holds start total l h = record {
  begun = h.begun;
  adds_up =
      let kept =
        sum_kept l.io_segment (l.currentsegment - start) start l.currentsegment l.segmentsize
          (omega (arith, h.begun)) in
      omega (arith, h.adds_up, kept);
}

pub store_open_sum :
    (start total : ℕ) (l : Layout)
    → Holds start total l
    → segments_size (store_open l).io_segment (l.currentsegment + 1 - start) start ≡ total
unfolding store_open
store_open_sum start total l h =
    let sum = sum_close l.io_segment start l.currentsegment l.segmentsize h.begun in
    omega (arith, h.adds_up, sum)

pub map_bits-Holds :
    (outputs bits : Bool) (start total : ℕ) (l : Layout)
    → Holds start total l
    → Holds start (total + byte_of bits) (map_bits outputs bits l)
unfolding map_bits byte_of close_segment
map_bits-Holds outputs false start total l h = subst (λ (n : ℕ). Holds start n l) (omega arith) h
map_bits-Holds outputs true start total l h =
    elim (Bool-cases
      (ltb l.segmentmaxsize (l.segmentsize + 1) && ltb l.currentsegment ec_maxiosegments)) [
        | inl closes ↦ rw closes (record {
          begun = omega (arith, h.begun);
          adds_up = omega (
            arith,
            h.adds_up,
            sum_close l.io_segment start l.currentsegment l.segmentsize h.begun,
          );
        })
        | inr fits ↦ rw fits (with_data start total 1 l h)
      ]

map_status-Holds :
    (diff start total : ℕ) (l : Layout)
    → l.currentsegment < 63
    → Holds start total l
    → Holds start (total + diff) (map_status diff l)
unfolding map_status
map_status-Holds diff start total l room h =
    elim (Bool-cases (ltb (ec_maxlrwdata - ec_firstdcdatagram) (l.segmentsize + diff))) [
      | inl closes ↦
          let left : ltb l.currentsegment (ec_maxiosegments - 1) ≡ true = ground (arith, room) in
          rw (closes, left)
            (record {
              begun = omega (arith, h.begun);
              adds_up = omega (
                arith,
                h.adds_up,
                sum_close l.io_segment start l.currentsegment l.segmentsize h.begun,
              );
            })
      | inr fits ↦ rw fits (with_data start total diff l h)
    ]

pub map_status_grows :
    (diff : ℕ) (l : Layout) → l.currentsegment ≤ (map_status diff l).currentsegment
unfolding map_status
map_status_grows diff l = ground arith

pub map_statuses_grows :
    (mailboxes : List Bool) (l : Layout)
    → l.currentsegment ≤ (map_statuses mailboxes l).currentsegment
unfolding map_statuses
map_statuses_grows [] l = omega arith
map_statuses_grows (mailbox ∷ mailboxes) l = omega (
  arith,
  map_status_grows (status_size mailbox) l,
  map_statuses_grows mailboxes (map_status (status_size mailbox) l),
)

pub map_statuses-Holds :
    (mailboxes : List Bool) (start total : ℕ) (l : Layout)
    → (map_statuses mailboxes l).currentsegment < 63
    → Holds start total l
    → Holds start (total + statuses_of mailboxes) (map_statuses mailboxes l)
unfolding map_statuses statuses_of
map_statuses-Holds [] start total l room h = subst (λ (n : ℕ). Holds start n l) (omega arith) h
map_statuses-Holds (mailbox ∷ mailboxes) start total l room h =
    subst (λ (n : ℕ). Holds start n (map_statuses mailboxes (map_status (status_size mailbox) l)))
      (omega arith)
      (map_statuses-Holds mailboxes start (total + status_size mailbox)
        (map_status (status_size mailbox) l) room
        (map_status-Holds (status_size mailbox) start total l
          (omega (
            arith,
            room,
            map_status_grows (status_size mailbox) l,
            map_statuses_grows mailboxes (map_status (status_size mailbox) l),
          ))
          h))
