-- ===== src/Base.antt =====
-- The blocking datagram primitives (src/ec_base.c).
pub mod Transfer
pub mod Wire
mod Tests
use ether_cat_master.Prelude.{
  ℕ, zero, suc, ◌+◌, ◌/◌, ◌%◌, ◌==◌, ltb, Bool, true, false, ◌&&◌, not, if◌then◌else◌, List, [],
  ◌∷◌,
}
use ether_cat_master.Prelude.Int.{ℤ, pos, ltb_ℤ, leb_ℤ}
use ether_cat_master.Memory.{Array, Buffer, update, copy, from, zeros, get16, put16}
use ether_cat_master.Frame.{
  Command, aprd, apwr, fprd, fpwr, brd, bwr, lrd, lwr, lrw, armw, frmw, code, ec_headersize,
  ec_cmdoffset, ec_wkcsize, setup_datagram, add_datagram,
}
use ether_cat_master.Nic.{Port, empty, getindex, setbufstat}
use ether_cat_master.Nic.Wait.{Attempts, srconfirm}

-- What a primitive gives back: the port, the work counter, and the caller's buffer.
pub record Reply : Type 0 where
  pub port : Port
  pub wkc : ℤ
  pub contents : Buffer

-- `ecx_setupdatagram(port, &(port->txbuf[idx]), ...)`
unfoldable pub setup_in : Port → ℕ → Command → ℕ → ℕ → ℕ → Buffer → Port
setup_in port idx cmd ADP ADO length contents =
    let (frame, n) = setup_datagram (port.txbuf idx) cmd idx ADP ADO length contents in
    record port { txbuf = update port.txbuf idx frame; txbuflength = update port.txbuflength idx n }

-- `ecx_adddatagram(port, &(port->txbuf[idx]), ...)`: the port and the offset in the answer.
unfoldable pub add_in : Port → ℕ → Command → Bool → ℕ → ℕ → ℕ → Buffer → Port × ℕ
add_in port idx cmd more ADP ADO length contents =
    let (frame, n, offset) =
      add_datagram (port.txbuf idx) (port.txbuflength idx % 65536) cmd idx more ADP ADO length
        contents in
    (
      record port {
        txbuf = update port.txbuf idx frame;
        txbuflength = update port.txbuflength idx n;
      },
      offset,
    )

-- Index, datagram, and the answer: the steps that all primitives begin with.
pub record Answer : Type 0 where
  pub idx : ℕ
  pub port : Port
  pub wkc : ℤ

unfoldable pub request : Port → Command → ℕ → ℕ → ℕ → Buffer → Attempts → Answer
request port cmd ADP ADO length contents attempts =
    let (idx, p) = getindex port in
    let (q, wkc) = srconfirm (setup_in p idx cmd ADP ADO length contents) idx attempts in
    record { idx = idx; port = q; wkc = wkc }

-- The received frame of an answer.
abbrev pub received : Answer → Buffer
received a = a.port.stack.rxbuf a.idx

-- `ecx_setbufstat(port, idx, EC_BUF_EMPTY)`, and the results.
abbrev pub release : Answer → Buffer → Reply
release a contents = record {
  port = setbufstat a.port a.idx empty;
  wkc = a.wkc;
  contents = contents;
}

-- `memcpy(data, &(port->rxbuf[idx][EC_HEADERSIZE]), length)`, if the work counter is positive.
abbrev pub read_back : Answer → ℕ → Buffer → Buffer
read_back a length contents =
    if ltb_ℤ (pos 0) a.wkc
    then copy contents 0 (from (received a) ec_headersize) length
    else contents

-- The same, if in addition the frame that came back has the command that went out.
abbrev pub read_back_of : Command → Answer → ℕ → Buffer → Buffer
read_back_of cmd a length contents =
    if ltb_ℤ (pos 0) a.wkc && (received a ec_cmdoffset == code cmd)
    then copy contents 0 (from (received a) ec_headersize) length
    else contents

-- ECT_REG_DCSYSTIME, and `sizeof(DCtime)`, the size of a pointer, which is that of the time on a
-- 64-bit target.
abbrev pub reg_dcsystime : ℕ
reg_dcsystime = 0x0910

abbrev pub dctime_size : ℕ
dctime_size = 8

module _ (port : Port) where
  unfoldable pub ecx_bwr : ℕ → ℕ → ℕ → Buffer → Attempts → Reply
  ecx_bwr ADP ADO length contents attempts =
      release (request port bwr ADP ADO length contents attempts) contents

  unfoldable pub ecx_brd : ℕ → ℕ → ℕ → Buffer → Attempts → Reply
  ecx_brd ADP ADO length contents attempts =
      let a : Answer = request port brd ADP ADO length contents attempts in
      release a (read_back a length contents)

  unfoldable pub ecx_aprd : ℕ → ℕ → ℕ → Buffer → Attempts → Reply
  ecx_aprd ADP ADO length contents attempts =
      let a : Answer = request port aprd ADP ADO length contents attempts in
      release a (read_back a length contents)

  unfoldable pub ecx_armw : ℕ → ℕ → ℕ → Buffer → Attempts → Reply
  ecx_armw ADP ADO length contents attempts =
      let a : Answer = request port armw ADP ADO length contents attempts in
      release a (read_back a length contents)

  unfoldable pub ecx_frmw : ℕ → ℕ → ℕ → Buffer → Attempts → Reply
  ecx_frmw ADP ADO length contents attempts =
      let a : Answer = request port frmw ADP ADO length contents attempts in
      release a (read_back a length contents)

  unfoldable pub ecx_fprd : ℕ → ℕ → ℕ → Buffer → Attempts → Reply
  ecx_fprd ADP ADO length contents attempts =
      let a : Answer = request port fprd ADP ADO length contents attempts in
      release a (read_back a length contents)

  unfoldable pub ecx_apwr : ℕ → ℕ → ℕ → Buffer → Attempts → Reply
  ecx_apwr ADP ADO length contents attempts =
      release (request port apwr ADP ADO length contents attempts) contents

  unfoldable pub ecx_fpwr : ℕ → ℕ → ℕ → Buffer → Attempts → Reply
  ecx_fpwr ADP ADO length contents attempts =
      release (request port fpwr ADP ADO length contents attempts) contents

  -- The word primitives: a two-byte variable `w`, which is 0 before a read.
  unfoldable pub ecx_aprdw : ℕ → ℕ → Attempts → Port × ℕ
  ecx_aprdw ADP ADO attempts =
      let r : Reply = ecx_aprd ADP ADO 2 zeros attempts in (r.port, get16 r.contents 0)

  unfoldable pub ecx_fprdw : ℕ → ℕ → Attempts → Port × ℕ
  ecx_fprdw ADP ADO attempts =
      let r : Reply = ecx_fprd ADP ADO 2 zeros attempts in (r.port, get16 r.contents 0)

  unfoldable pub ecx_apwrw : ℕ → ℕ → ℕ → Attempts → Port × ℤ
  ecx_apwrw ADP ADO w attempts =
      let r : Reply = ecx_apwr ADP ADO 2 (put16 zeros 0 w) attempts in (r.port, r.wkc)

  unfoldable pub ecx_fpwrw : ℕ → ℕ → ℕ → Attempts → Port × ℤ
  ecx_fpwrw ADP ADO w attempts =
      let r : Reply = ecx_fpwr ADP ADO 2 (put16 zeros 0 w) attempts in (r.port, r.wkc)

  -- LO_WORD and HI_WORD of a 32-bit logical address.
  unfoldable pub ecx_lrw : ℕ → ℕ → Buffer → Attempts → Reply
  ecx_lrw LogAdr length contents attempts =
      let a : Answer =
        request port lrw (LogAdr % 65536) (LogAdr / 65536) length contents attempts in
      release a (read_back_of lrw a length contents)

  unfoldable pub ecx_lrd : ℕ → ℕ → Buffer → Attempts → Reply
  ecx_lrd LogAdr length contents attempts =
      let a : Answer =
        request port lrd (LogAdr % 65536) (LogAdr / 65536) length contents attempts in
      release a (read_back_of lrd a length contents)

  unfoldable pub ecx_lwr : ℕ → ℕ → Buffer → Attempts → Reply
  ecx_lwr LogAdr length contents attempts =
      release (request port lwr (LogAdr % 65536) (LogAdr / 65536) length contents attempts) contents

  -- The eight bytes of `*DCtime` go in and come out as a buffer.
  unfoldable pub ecx_lrwdc : ℕ → ℕ → Buffer → ℕ → Buffer → Attempts → Reply × Buffer
  ecx_lrwdc LogAdr length contents DCrs DCtime attempts =
      let (idx, p) = getindex port in
      let first : Port = setup_in p idx lrw (LogAdr % 65536) (LogAdr / 65536) length contents in
      let (second, DCtO) = add_in first idx frmw false DCrs reg_dcsystime dctime_size DCtime in
      let (q, wkc) = srconfirm second idx attempts in
      let a : Answer = record { idx = idx; port = q; wkc = wkc } in
      let rx : Buffer = received a in
      if ltb_ℤ (pos 0) wkc && (rx ec_cmdoffset == code lrw)
      then (
        record (release a (copy contents 0 (from rx ec_headersize) length)) {
          wkc = pos (get16 rx (ec_headersize + length));
        },
        copy DCtime 0 (from rx DCtO) dctime_size,
      )
      else (release a contents, DCtime)
