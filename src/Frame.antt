-- ===== src/Frame.antt =====
-- Frames: `ecx_setupdatagram` and `ecx_adddatagram` (src/ec_base.c), with the layout of
-- `ec_etherheadert` and `ec_comt` (include/soem/ec_type.h).
pub mod Layout
pub mod Chain
mod Tests
use ether_cat_master.Prelude.{
  ℕ, zero, suc, ◌+◌, ◌-◌, ◌*◌, ◌/◌, ◌%◌, Bool, true, false, ltb, if◌then◌else◌,
}
use ether_cat_master.Memory.{Buffer, update, copy, zeros, put16, get16}

pub data Command : Type 0 where
  nop aprd apwr aprw fprd fpwr fprw brd bwr brw lrd lwr lrw armw frmw : Command

abbrev pub code : Command → ℕ
code nop = 0
code aprd = 1
code apwr = 2
code aprw = 3
code fprd = 4
code fpwr = 5
code fprw = 6
code brd = 7
code bwr = 8
code brw = 9
code lrd = 10
code lwr = 11
code lrw = 12
code armw = 13
code frmw = 14

-- ETH_HEADERSIZE, EC_HEADERSIZE, EC_ELENGTHSIZE, EC_CMDOFFSET and EC_WKCSIZE.
abbrev pub eth_headersize : ℕ
eth_headersize = 14

abbrev pub ec_headersize : ℕ
ec_headersize = 12

abbrev pub ec_elengthsize : ℕ
ec_elengthsize = 2

abbrev pub ec_cmdoffset : ℕ
ec_cmdoffset = 2

abbrev pub ec_wkcsize : ℕ
ec_wkcsize = 2

abbrev pub ec_ecattype : ℕ
ec_ecattype = 0x1000

-- EC_MAXECATFRAME, which is EC_BUFSIZE.
abbrev pub ec_bufsize : ℕ
ec_bufsize = 1518

-- `w | EC_DATAGRAMFOLLOWS` on a 16-bit word.
abbrev pub with_follows : ℕ → ℕ
with_follows w = w % 32768 + 32768

-- The commands with no data to send.
abbrev pub is_read : Command → Bool
is_read nop = true
is_read aprd = true
is_read fprd = true
is_read brd = true
is_read lrd = true
is_read _ = false

-- `datagramdata` is `frame` at `offset`.
unfoldable pub write_datagram_data : Buffer → ℕ → Command → ℕ → Buffer → Buffer
write_datagram_data frame offset cmd length contents =
    if ltb 0 length
    then (if is_read cmd then copy frame offset zeros length else copy frame offset contents length)
    else frame

-- The fields of an `ec_comt` that the code writes after `elength`: `irpt` is left alone. `header` is
-- the address of the struct.
unfoldable pub put_header : Buffer → ℕ → Command → ℕ → ℕ → ℕ → ℕ → Buffer
unfolding update put16
put_header frame header cmd idx ADP ADO dlength =
    put16
      (put16
        (put16 (update (update frame (header + 2) (code cmd)) (header + 3) idx) (header + 4) ADP)
        (header + 6) ADO)
      (header + 8) dlength

-- The work counter is set to zero.
unfoldable pub clear_wkc : Buffer → ℕ → Buffer
unfolding update
clear_wkc frame offset = update (update frame offset 0x00) (offset + 1) 0x00

-- The frame, and its new length in `port->txbuflength[idx]`.
unfoldable pub setup_datagram : Buffer → Command → ℕ → ℕ → ℕ → ℕ → Buffer → Buffer × ℕ
unfolding write_datagram_data put_header clear_wkc put16
setup_datagram frame cmd idx ADP ADO length contents = (
  clear_wkc
      (write_datagram_data
        (put_header (put16 frame eth_headersize ((ec_ecattype + ec_headersize + length) % 65536))
          eth_headersize cmd idx ADP ADO length)
        (eth_headersize + ec_headersize) cmd length contents)
      (eth_headersize + ec_headersize + length),
  eth_headersize + ec_headersize + ec_wkcsize + length,
)

-- `prevlength` is `port->txbuflength[idx]`; the result is the frame, its new length, and the offset
-- of the data in the frame that comes back.
unfoldable pub add_datagram : Buffer → ℕ → Command → ℕ → Bool → ℕ → ℕ → ℕ → Buffer → Buffer × ℕ × ℕ
unfolding write_datagram_data put_header clear_wkc put16 get16
add_datagram frame prevlength cmd idx more ADP ADO length contents =
    let grown : Buffer =
      put16 frame eth_headersize ((get16 frame eth_headersize + ec_headersize + length) % 65536) in
    let flagged : Buffer =
      put16 grown (eth_headersize + 8) (with_follows (get16 grown (eth_headersize + 8))) in
    (
      clear_wkc
          (write_datagram_data
            (put_header flagged (prevlength - ec_elengthsize) cmd idx ADP ADO
              (if more then with_follows length else length))
            (prevlength + ec_headersize - ec_elengthsize) cmd length contents)
          (prevlength + ec_headersize - ec_elengthsize + length),
      prevlength + ec_headersize - ec_elengthsize + ec_wkcsize + length,
      (prevlength + ec_headersize - ec_elengthsize - eth_headersize) % 65536,
    )
