-- ===== src/Nic/Receive.antt =====
-- Sending a frame and reading one: `ecx_outframe`, `ecx_outframe_red`, `ecx_recvpkt`, `ecx_inframe`.
pub mod Match
use ether_cat_master.Prelude.{
  ℕ, suc, ◌+◌, ◌-◌, ◌*◌, ◌%◌, ◌==◌, ltb, Bool, true, false, ◌&&◌, if◌then◌else◌, Option, none, some,
  List, ◌∷◌,
}
use ether_cat_master.Prelude.Int.{ℤ, pos}
use ether_cat_master.Memory.{Array, Buffer, update, copy, from, get16}
use ether_cat_master.Frame.{eth_headersize}
use ether_cat_master.Nic.{
  BufState, empty, tx, rcvd, complete, ec_maxbuf, ec_noframe, ec_otherframe, rx_prim, rx_sec, Stack,
  Port, Sent, set_stat, set_red, put16_be, get16_be, eth_p_ecat,
}

abbrev pub sent_if : Bool → Sent → List Sent → List Sent
sent_if true s log = s ∷ log
sent_if false s log = log

-- The status of a buffer once `send` is tried.
abbrev pub sent_stat : Bool → BufState
sent_stat true = tx
sent_stat false = empty

-- `taken` says whether the socket takes the frame; the result of the call is not used.
unfoldable pub outframe : Port → ℕ → Bool → Port
unfolding update
outframe port idx taken = record port {
  stack = set_stat port.stack idx (sent_stat taken);
  sent =
      sent_if taken
        (record { secondary = false; bytes = port.txbuf idx; size = port.txbuflength idx })
        port.sent;
}

-- On the secondary stack, the same transmit buffer.
unfoldable pub outframe_secondary : Port → ℕ → Bool → Port
unfolding update
outframe_secondary port idx taken = record port {
  red = set_red port.red idx (sent_stat taken);
  sent =
      sent_if taken
        (record { secondary = true; bytes = port.txbuf idx; size = port.txbuflength idx })
        port.sent;
}

-- The dummy frame for the secondary socket: its index, and the secondary source address.
unfoldable pub dummy_frame : Port → ℕ → Buffer
dummy_frame port idx = put16_be (update port.txbuf2 (eth_headersize + 3) idx) 8 rx_sec

unfoldable pub send_dummy : Option Stack → Port → ℕ → Bool → Port
send_dummy none port idx taken = port
send_dummy (some s) port idx taken = record port {
  txbuf2 = dummy_frame port idx;
  red = some (set_stat s idx (sent_stat taken));
  sent =
      sent_if taken
        (record { secondary = true; bytes = dummy_frame port idx; size = port.txbuflength2 })
        port.sent;
}

-- The frame on the primary socket, and in redundant mode a dummy on the secondary one.
unfoldable pub outframe_red : Port → ℕ → Bool → Bool → Port
unfolding outframe send_dummy dummy_frame update
outframe_red port idx taken taken2 =
    let addressed : Port = record port {
      txbuf = update port.txbuf idx (put16_be (port.txbuf idx) 8 rx_prim);
    } in
    let p : Port = outframe addressed idx taken in send_dummy p.red p idx taken2

-- The length word of a received frame without its flag bits, and the work counter behind the
-- datagrams.
unfoldable pub frame_length : Buffer → ℕ
frame_length rxbuf = rxbuf 0 + 256 * (rxbuf 1 % 16)

abbrev pub wkc_at : Buffer → ℕ → ℤ
wkc_at rxbuf l = pos (rxbuf l + 256 * rxbuf (l + 1))

-- A frame's bytes behind the Ethernet header, into a receive buffer.
unfoldable pub strip : Buffer → Buffer → ℕ → Buffer
strip rxbuf tempbuf txbuflength =
    copy rxbuf 0 (from tempbuf eth_headersize) (txbuflength - eth_headersize)

abbrev pub is_rcvd : BufState → Bool
is_rcvd rcvd = true
is_rcvd _ = false

abbrev pub is_tx : BufState → Bool
is_tx tx = true
is_tx _ = false

-- A frame is stored in the buffer `i`.
unfoldable pub store_frame : Stack → ℕ → ℕ → BufState → Stack
unfolding update
store_frame s i txbuflength st = record s {
  rxbuf = update s.rxbuf i (strip (s.rxbuf i) s.tempbuf txbuflength);
  rxbufstat = update s.rxbufstat i st;
  rxsa = update s.rxsa i (get16_be s.tempbuf 8);
}

-- An EtherCAT frame in `tempbuf`: ours, somebody else's, or nobody's.
unfoldable pub sort_frame : Array ℕ → Stack → ℕ → Stack × ℤ
sort_frame txbuflength s idx =
    let l = get16 s.tempbuf eth_headersize % 4096 in
    let idxf = s.tempbuf (eth_headersize + 3) in
    let counted : Stack = record s { rxcnt = s.rxcnt + 1 } in
    let mine : Stack = store_frame counted idx (txbuflength idx) complete in
    if idxf == idx
    then (mine, wkc_at (mine.rxbuf idx) l)
    else if ltb idxf ec_maxbuf && is_tx (s.rxbufstat idxf)
    then (store_frame counted idxf (txbuflength idxf) rcvd, ec_otherframe)
    else (counted, ec_otherframe)

-- Reading the socket; `packet` is what `recv` gives now, none if that is nothing.
unfoldable pub fetch : Array ℕ → Stack → ℕ → Option Buffer → Stack × ℤ
fetch txbuflength s idx none = (s, ec_noframe)
fetch txbuflength s idx (some bytes) =
    if get16_be bytes 12 == eth_p_ecat
    then sort_frame txbuflength (record s { tempbuf = bytes }) idx
    else (record s { tempbuf = bytes }, ec_otherframe)

-- The second look at the buffer, under the mutex, sees what the first one saw: no other task runs in
-- between here.
unfoldable pub inframe : Array ℕ → Stack → ℕ → Option Buffer → Stack × ℤ
unfolding update fetch
inframe txbuflength s idx packet =
    if ltb idx ec_maxbuf && is_rcvd (s.rxbufstat idx)
    then (set_stat s idx complete, wkc_at (s.rxbuf idx) (frame_length (s.rxbuf idx)))
    else fetch txbuflength s idx packet
