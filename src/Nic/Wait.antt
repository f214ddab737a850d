-- ===== src/Nic/Wait.antt =====
-- Waiting for a frame to come back: `ecx_waitinframe_red`, `ecx_srconfirm`.
pub mod Confirm
pub mod Wire
use ether_cat_master.Prelude.{
  ℕ, suc, ◌-◌, ◌==◌, Bool, true, false, ◌&&◌, ◌||◌, not, if◌then◌else◌, Option, none, some,
}
use ether_cat_master.Prelude.Int.{ℤ, pos}
use ether_cat_master.Memory.{Array, Buffer, update, copy, from}
use ether_cat_master.Frame.{eth_headersize}
use ether_cat_master.Nic.{ec_noframe, is_noframe, rx_prim, rx_sec, Stack, Port}
use ether_cat_master.Nic.Receive.{inframe, outframe_red, outframe_secondary}

-- One round of polling: whether `ppoll` succeeds, and what is there to read on the two sockets.
pub record Round : Type 0 where
  pub polled : Bool
  pub primary : Option Buffer
  pub second : Option Buffer

-- The rounds until a timer expires: the test of the timer after the last one says so.
pub data Rounds : Type 0 where
  expires : Round → Rounds
  goes_on : Round → Rounds → Rounds

-- The port and the two work counters of `ecx_waitinframe_red`.
pub record Waiting : Type 0 where
  pub port : Port
  pub wkc : ℤ
  pub wkc2 : ℤ

read_primary : ℕ → Option Buffer → Waiting → Waiting
read_primary idx packet w =
    let (s, wkc) = inframe w.port.txbuflength w.port.stack idx packet in
    if is_noframe w.wkc then record w { port = record (w.port) { stack = s }; wkc = wkc } else w

read_secondary : Option Stack → ℕ → Option Buffer → Waiting → Waiting
read_secondary none idx packet w = w
read_secondary (some red) idx packet w =
    let (s, wkc2) = inframe w.port.txbuflength red idx packet in
    if is_noframe w.wkc2
    then record w { port = record (w.port) { red = some s }; wkc2 = wkc2 }
    else w

poll_round : ℕ → Round → Waiting → Waiting
poll_round idx r w =
    let first : Waiting = read_primary idx r.primary w in
    if r.polled then read_secondary first.port.red idx r.second first else w

abbrev is_done : Waiting → Bool
is_done w = not (is_noframe w.wkc || is_noframe w.wkc2)

unfoldable pub poll_rounds : ℕ → Rounds → Waiting → Waiting
unfolding poll_round read_primary read_secondary
poll_rounds idx (expires r) w = poll_round idx r w
poll_rounds idx (goes_on r rest) w =
    let now : Waiting = poll_round idx r w in
    let later : Waiting = poll_rounds idx rest now in if is_done now then now else later

-- The rounds on the secondary socket alone, after a frame was sent again.
unfoldable pub resend_rounds : ℕ → Rounds → Array ℕ → Stack → Stack × ℤ
resend_rounds idx (expires r) txbuflength red = inframe txbuflength red idx r.second
resend_rounds idx (goes_on r rest) txbuflength red =
    let now : Stack × ℤ = inframe txbuflength red idx r.second in
    let later : Stack × ℤ = resend_rounds idx rest txbuflength now.0 in
    if is_noframe now.1 then later else now

-- Whether a second transmission is taken, and the rounds until its timer expires.
pub record Resend : Type 0 where
  pub taken : Bool
  pub rounds : Rounds

-- `memcpy(&(port->rxbuf[idx]), &(port->redport->rxbuf[idx]), ...)`
copy_secondary : Port → Stack → ℕ → Port
copy_secondary port red idx = record port {
  stack = record (port.stack) {
    rxbuf =
        update port.stack.rxbuf idx
          (copy (port.stack.rxbuf idx) 0 (red.rxbuf idx) (port.txbuflength idx - eth_headersize));
  };
}

-- `memcpy(&(port->txbuf[idx][ETH_HEADERSIZE]), &(port->rxbuf[idx]), ...)`
copy_to_tx : Port → ℕ → Port
copy_to_tx port idx = record port {
  txbuf = update port.txbuf idx (
      copy (port.txbuf idx) eth_headersize (port.stack.rxbuf idx)
        (port.txbuflength idx - eth_headersize));
}

-- The frame is sent again on the secondary socket; without an answer `wkc` stays.
resend : Option Stack → ℕ → ℤ → Resend → Port → Port × ℤ
resend none idx wkc again port = (port, wkc)
resend (some red) idx wkc again port =
    let (red', wkc2) = resend_rounds idx again.rounds port.txbuflength red in
    let waited : Port = record port { red = some red' } in
    if is_noframe wkc2 then (waited, wkc) else (copy_secondary waited red' idx, wkc2)

-- `primrx` and `secrx`: the source address that came in, 0 for nothing.
abbrev route : ℤ → ℕ → ℕ
route wkc rxsa = if is_noframe wkc then 0 else rxsa

-- The decision of the redundant mode, from the routes of the two frames. The resending test stands
-- behind the first one in the code, and cannot hold with it.
-- The primary frame came back on the secondary socket, and the other way round.
abbrev crossed : Stack → ℕ → Waiting → Bool
crossed red idx w =
    route w.wkc (w.port.stack.rxsa idx) == rx_sec && route w.wkc2 (red.rxsa idx) == rx_prim

-- The secondary frame came back to the secondary socket: the ring is open.
abbrev open_ring : Stack → ℕ → Waiting → Bool
open_ring red idx w =
    (route w.wkc (w.port.stack.rxsa idx) == 0 || route w.wkc (w.port.stack.rxsa idx) == rx_prim)
    && route w.wkc2 (red.rxsa idx) == rx_sec

-- The transmission on the secondary socket, with what the primary one got where it got its own frame.
again_out : ℕ → Resend → Waiting → Port
again_out idx again w =
    outframe_secondary
      (if route w.wkc (w.port.stack.rxsa idx) == rx_prim then copy_to_tx w.port idx else w.port) idx
      again.taken

decide_route : Stack → ℕ → Resend → Waiting → Port × ℤ
decide_route red idx again w =
    let out : Port = again_out idx again w in
    if crossed red idx w
    then (copy_secondary w.port red idx, w.wkc2)
    else if open_ring red idx w
    then resend out.red idx w.wkc again out
    else (w.port, w.wkc)

redundant : Option Stack → ℕ → Resend → Waiting → Port × ℤ
redundant none idx again w = (w.port, w.wkc)
redundant (some red) idx again w = decide_route red idx again w

-- Without redundancy the secondary frame is taken to be there.
abbrev start_wkc2 : Option Stack → ℤ
start_wkc2 none = pos 0
start_wkc2 (some red) = ec_noframe

unfoldable pub waitinframe_red : Port → ℕ → Rounds → Resend → Port × ℤ
unfolding redundant decide_route again_out resend copy_secondary copy_to_tx
waitinframe_red port idx rounds again =
    let w : Waiting =
      poll_rounds idx rounds
        (record { port = port; wkc = ec_noframe; wkc2 = start_wkc2 port.red }) in
    redundant w.port.red idx again w

-- `ecx_waitinframe`, whose timer is the one that the rounds end with.
unfoldable pub waitinframe : Port → ℕ → Rounds → Resend → Port × ℤ
waitinframe port idx rounds again = waitinframe_red port idx rounds again

-- One try of `ecx_srconfirm`: whether the two sockets take the frames, and what then comes.
pub record Attempt : Type 0 where
  pub taken : Bool
  pub taken2 : Bool
  pub rounds : Rounds
  pub again : Resend

-- The tries until the timer of the call expires.
pub data Attempts : Type 0 where
  last_try : Attempt → Attempts
  retry : Attempt → Attempts → Attempts

unfoldable pub try_once : Port → ℕ → Attempt → Port × ℤ
try_once port idx a = waitinframe_red (outframe_red port idx a.taken a.taken2) idx a.rounds a.again

unfoldable pub srconfirm : Port → ℕ → Attempts → Port × ℤ
unfolding try_once
srconfirm port idx (last_try a) = try_once port idx a
srconfirm port idx (retry a rest) =
    let now : Port × ℤ = try_once port idx a in
    let later : Port × ℤ = srconfirm now.0 idx rest in if is_noframe now.1 then later else now
