-- ===== src/Frame/Tests.antt =====
-- Datagrams on examples: a broadcast write of three bytes, and a read of two bytes behind it.
use ether_cat_master.Prelude.{ℕ, ◌+◌, ◌-◌, ◌<◌, ◌≤◌, ◌≡◌, ◌⊎◌, refl, false, arith}
use ether_cat_master.Memory.{Buffer, get16, put16, copy, update, zeros}
use ether_cat_master.Frame.{
  bwr, fprd, setup_datagram, add_datagram, with_follows, put_header, write_datagram_data, clear_wkc,
}
use ether_cat_master.Frame.Layout.{HasDatagram, setup_datagram_lem}
use ether_cat_master.Frame.Chain.{Untouched, add_datagram_lem}

abbrev counting : Buffer
counting j = j + 1

abbrev first : Buffer
first = (setup_datagram zeros bwr 3 0 0x0120 3 counting).0

abbrev both : Buffer
both = (add_datagram first 31 fprd 3 false 0x1001 0x0130 2 counting).0

first_bytes : (first 16 ≡ 8) × (first 17 ≡ 3) × (first 28 ≡ 3) × (get16 first 14 ≡ 0x100f)
unfolding setup_datagram put16 get16 copy put_header write_datagram_data clear_wkc update
first_bytes = (refl, refl, refl, refl)

setup_datagram_lem_example :
    HasDatagram first 14 bwr 3 0 0x0120 3 3 counting
    × ((setup_datagram zeros bwr 3 0 0x0120 3 counting).1 ≡ 31)
    × (get16 first 14 ≡ 0x1000 + ((setup_datagram zeros bwr 3 0 0x0120 3 counting).1 - 16))
    × ((j : ℕ) → (j < 14) ⊎ ((setup_datagram zeros bwr 3 0 0x0120 3 counting).1 ≤ j) → first j ≡ 0)
unfolding setup_datagram
setup_datagram_lem_example =
    setup_datagram_lem zeros bwr 3 0 0x0120 3 counting (omega arith) (omega arith) (omega arith)

first-fits : get16 first 14 + 12 + 2 < 65536
unfolding get16 setup_datagram copy
first-fits = omega arith

add_datagram_lem_example :
    HasDatagram both 29 fprd 3 0x1001 0x0130 2 2 counting
    × ((add_datagram first 31 fprd 3 false 0x1001 0x0130 2 counting).1 ≡ 45)
    × ((add_datagram first 31 fprd 3 false 0x1001 0x0130 2 counting).2 + 14 ≡ 41)
    × (get16 both 14 ≡ get16 first 14 + 12 + 2)
    × (get16 both 22 ≡ with_follows (get16 first 22))
    × ((j : ℕ) → Untouched 31 j ⊎ (45 ≤ j) → both j ≡ first j)
unfolding add_datagram
add_datagram_lem_example =
    add_datagram_lem first 31 fprd 3 false 0x1001 0x0130 2 counting (omega arith) (omega arith)
      (omega arith) (omega arith) (omega arith) first-fits
