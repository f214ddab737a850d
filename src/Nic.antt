-- ===== src/Nic.antt =====
-- The network driver (oshw/linux/nicdrv.c): frame buffers, their indices, and the state of a port.
pub mod Index
pub mod Receive
pub mod Wait
mod Tests
use ether_cat_master.Prelude.{
  ℕ, zero, suc, ◌+◌, ◌-◌, ◌*◌, ◌/◌, ◌%◌, ◌==◌, leb, ltb, Bool, true, false, if◌then◌else◌, Option,
  none, some, List, [], ◌∷◌, ◌++◌,
}
use ether_cat_master.Prelude.Int.{ℤ, pos, negsuc, leb_ℤ}
use ether_cat_master.Memory.{Array, Buffer, update}

-- `ec_bufstate`.
pub data BufState : Type 0 where
  empty alloc tx rcvd complete : BufState

-- EC_MAXBUF, as the build sets it.
abbrev pub ec_maxbuf : ℕ
ec_maxbuf = 16

abbrev pub ec_noframe : ℤ
ec_noframe = negsuc 0

abbrev pub ec_otherframe : ℤ
ec_otherframe = negsuc 1

-- `wkc <= EC_NOFRAME`
abbrev pub is_noframe : ℤ → Bool
is_noframe wkc = leb_ℤ wkc ec_noframe

-- RX_PRIM and RX_SEC: the middle words of the two source addresses.
abbrev pub rx_prim : ℕ
rx_prim = 0x0101

abbrev pub rx_sec : ℕ
rx_sec = 0x0404

-- What a port has for each of its sockets. `ec_stackT` holds pointers to these.
pub record Stack : Type 0 where
  pub rxbuf : Array Buffer
  pub rxbufstat : Array BufState
  pub rxsa : Array ℕ
  pub tempbuf : Buffer
  pub rxcnt : ℕ

-- A frame that went out: on the secondary socket or not, its bytes and its length.
pub record Sent : Type 0 where
  pub secondary : Bool
  pub bytes : Buffer
  pub size : ℕ

-- `ecx_portt`. `red` is none for ECT_RED_NONE, else the stack of the redundant port; the transmit
-- buffers are shared by both stacks. `sent` is what the sockets took, the newest first.
pub record Port : Type 0 where
  pub stack : Stack
  pub red : Option Stack
  pub txbuf : Array Buffer
  pub txbuflength : Array ℕ
  pub txbuf2 : Buffer
  pub txbuflength2 : ℕ
  pub lastidx : ℕ
  pub sent : List Sent

abbrev pub set_stat : Stack → ℕ → BufState → Stack
set_stat s idx st = record s { rxbufstat = update s.rxbufstat idx st }

-- The same on the redundant stack, where there is one.
abbrev pub set_red : Option Stack → ℕ → BufState → Option Stack
set_red none idx st = none
set_red (some s) idx st = some (set_stat s idx st)

unfoldable pub setbufstat : Port → ℕ → BufState → Port
unfolding update
setbufstat port idx bufstat = record port {
  stack = set_stat port.stack idx bufstat;
  red = set_red port.red idx bufstat;
}

abbrev pub is_empty : BufState → Bool
is_empty empty = true
is_empty _ = false

-- The index after `idx`, going round at EC_MAXBUF.
abbrev pub next_index : ℕ → ℕ
next_index idx = if leb ec_maxbuf (idx + 1) then 0 else idx + 1

-- The search for an unused index; the rounds left are `EC_MAXBUF - cnt`.
unfoldable pub find_index : Array BufState → ℕ → ℕ → ℕ
find_index rxbufstat zero idx = idx
find_index rxbufstat (suc rounds) idx = elim (is_empty (rxbufstat idx)) [
  | true ↦ idx
  | false ↦ find_index rxbufstat rounds (next_index idx)
]

-- `port->lastidx + 1` in a uint8_t, and 0 if that is no index.
abbrev pub first_index : ℕ → ℕ
first_index lastidx = let idx = (lastidx + 1) % 256 in if leb ec_maxbuf idx then 0 else idx

unfoldable pub getindex : Port → ℕ × Port
unfolding setbufstat
getindex port =
    let idx = find_index port.stack.rxbufstat ec_maxbuf (first_index port.lastidx) in
    (idx, record (setbufstat port idx alloc) { lastidx = idx })

-- `htons` words: the high byte first.
unfoldable pub put16_be : Buffer → ℕ → ℕ → Buffer
unfolding update
put16_be buf offset w = update (update buf offset (w / 256 % 256)) (offset + 1) (w % 256)

unfoldable pub get16_be : Buffer → ℕ → ℕ
get16_be buf offset = 256 * buf offset + buf (offset + 1)

-- The Ethernet header: broadcast, the primary source address, and the EtherCAT type.
abbrev pub eth_p_ecat : ℕ
eth_p_ecat = 0x88a4

unfoldable pub setup_header : Buffer → Buffer
unfolding put16_be
setup_header buf =
    put16_be
      (put16_be
        (put16_be
          (put16_be (put16_be (put16_be (put16_be buf 0 0xffff) 2 0xffff) 4 0xffff) 6 rx_prim) 8
          rx_prim)
        10 rx_prim)
      12 eth_p_ecat

-- `ecx_clear_rxbufstat`
abbrev pub clear_rxbufstat : Array BufState
clear_rxbufstat i = empty

-- What `ecx_setupnic` does to the port, once the sockets are there: the primary port alone. Every
-- transmit buffer gets the Ethernet header.
unfoldable pub setup_primary : Port → Port
unfolding setup_header
setup_primary port = record port {
  stack = record (port.stack) { rxbufstat = clear_rxbufstat };
  red = none;
  lastidx = 0;
  txbuf = λ i. if ltb i ec_maxbuf then setup_header (port.txbuf i) else port.txbuf i;
  txbuf2 = setup_header port.txbuf2;
}

-- The second call, with the structure of the redundant port: redundant from now on.
unfoldable pub setup_secondary : Port → Stack → Port
unfolding setup_header
setup_secondary port redport = record port {
  stack = record (port.stack) { rxbufstat = clear_rxbufstat };
  red = some (record redport { rxbufstat = clear_rxbufstat });
  txbuf = λ i. if ltb i ec_maxbuf then setup_header (port.txbuf i) else port.txbuf i;
  txbuf2 = setup_header port.txbuf2;
}
