-- ===== src/Master/Process.antt =====
-- The index stack, and the frames of the process data that come back:
-- `ecx_pushindex`, `ecx_pullindex`, `ecx_clearindex`, `ecx_receive_processdata_group`.
pub mod Receive
pub mod Segments
pub mod Send
pub mod Cover
pub mod Sizes
pub mod Sent
mod Tests
use ether_cat_master.Prelude.{
  ℕ, zero, suc, ◌+◌, ◌-◌, ◌*◌, ◌==◌, ltb, Bool, true, false, ◌||◌, if◌then◌else◌, Option, none,
  some,
}
use ether_cat_master.Prelude.Int.{ℤ, pos, negsuc}
use ether_cat_master.Memory.{Array, Buffer, update, copy, from, get16}
use ether_cat_master.Frame.{code, lrd, lrw, lwr, ec_headersize, ec_cmdoffset}
use ether_cat_master.Nic.{Port, empty, setbufstat, ec_maxbuf, ec_noframe}
use ether_cat_master.Nic.Wait.{Rounds, Resend, waitinframe}

-- `ec_idxstackT`. The pointers `data` are offsets in the IO map; `type` is used by nobody.
pub record IndexStack : Type 0 where
  pub pushed : ℕ
  pub pulled : ℕ
  pub idx : Array ℕ
  pub segment : Array ℕ
  pub length : Array ℕ
  pub dcoffset : Array ℕ

unfoldable pub pushindex : IndexStack → ℕ → ℕ → ℕ → ℕ → IndexStack
unfolding update
pushindex s idx segment length DCO =
    if ltb s.pushed ec_maxbuf
    then record s {
      idx = update s.idx s.pushed idx;
      segment = update s.segment s.pushed segment;
      length = update s.length s.pushed length;
      dcoffset = update s.dcoffset s.pushed DCO;
      pushed = s.pushed + 1;
    }
    else s

-- The result is the place on the stack, none for -1.
unfoldable pub pullindex : IndexStack → IndexStack × Option ℕ
pullindex s =
    if ltb s.pulled s.pushed then (record s { pulled = s.pulled + 1 }, some s.pulled) else (s, none)

unfoldable pub clearindex : IndexStack → IndexStack
clearindex s = record s { pushed = 0; pulled = 0 }

-- What the receiving loop works on. `dctime` is the bytes of `context->DCtime`; the work counter is
-- never negative.
pub record Receipt : Type 0 where
  pub port : Port
  pub idxstack : IndexStack
  pub iomap : Buffer
  pub dctime : Buffer
  pub wkc : ℕ
  pub valid_wkc : Bool

-- How long the wait for a frame lasts, and what comes in.
pub record Wait : Type 0 where
  pub rounds : Rounds
  pub again : Resend

-- `memcpy(idxstack->data[pos], &(rxbuf[idx][EC_HEADERSIZE]), idxstack->length[pos])`
abbrev copy_segment : IndexStack → ℕ → Buffer → Buffer → Buffer
copy_segment s place rx iomap =
    copy iomap (s.segment place) (from rx ec_headersize) (s.length place)

-- The work counter of the first datagram, where a DC datagram follows.
abbrev first_wkc : IndexStack → ℕ → Buffer → ℕ
first_wkc s place rx = get16 rx (ec_headersize + s.length place)

abbrev copy_dctime : IndexStack → ℕ → Buffer → Buffer → Buffer
copy_dctime s place rx dctime = copy dctime 0 (from rx (s.dcoffset place)) 8

-- A frame with inputs.
abbrev take_inputs : ℕ → ℕ → Buffer → Receipt → Receipt
take_inputs place wkc2 rx r =
    if ltb 0 (r.idxstack.dcoffset place)
    then record r {
      iomap = copy_segment r.idxstack place rx r.iomap;
      wkc = first_wkc r.idxstack place rx;
      dctime = copy_dctime r.idxstack place rx r.dctime;
      valid_wkc = true;
    }
    else record r {
      iomap = copy_segment r.idxstack place rx r.iomap;
      wkc = r.wkc + wkc2;
      valid_wkc = true;
    }

-- A frame with outputs only, whose work counter counts twice.
abbrev take_outputs : ℕ → ℕ → Buffer → Receipt → Receipt
take_outputs place wkc2 rx r =
    if ltb 0 (r.idxstack.dcoffset place)
    then record r {
      wkc = first_wkc r.idxstack place rx * 2;
      dctime = copy_dctime r.idxstack place rx r.dctime;
      valid_wkc = true;
    }
    else record r { wkc = r.wkc + wkc2 * 2; valid_wkc = true }

-- `wkc2 > EC_NOFRAME` is a work counter that is not negative.
unfoldable pub take_frame : ℕ → ℤ → Buffer → Receipt → Receipt
take_frame place (negsuc _) rx r = r
take_frame place (pos wkc2) rx r =
    if (rx ec_cmdoffset == code lrd) || (rx ec_cmdoffset == code lrw)
    then take_inputs place wkc2 rx r
    else if rx ec_cmdoffset == code lwr
    then take_outputs place wkc2 rx r
    else r

-- One frame: it is waited for, used, and its buffer released.
unfoldable pub receive_frame : ℕ → Wait → Receipt → Receipt
receive_frame place w r =
    let idx = r.idxstack.idx place in
    let (port, wkc2) = waitinframe r.port idx w.rounds w.again in
    let used : Receipt = take_frame place wkc2 (port.stack.rxbuf idx) (record r { port = port }) in
    record used { port = setbufstat used.port idx empty }

-- The loop, for at most `rounds` frames; `waits` has the wait for each place on the stack.
unfoldable pub receive_frames : ℕ → (ℕ → Wait) → Receipt → Receipt
receive_frames zero waits r = r
receive_frames (suc rounds) waits r = elim (pullindex r.idxstack).1 [
  | none ↦ r
  | some place ↦
      receive_frames rounds waits
        (receive_frame place (waits place) (record r { idxstack = (pullindex r.idxstack).0 }))
]

-- The stack holds `pushed - pulled` frames, and as many rounds are given.
unfoldable pub receive_processdata : Port → IndexStack → Buffer → Buffer → (ℕ → Wait) → Receipt × ℤ
receive_processdata port idxstack iomap dctime waits =
    let r : Receipt = receive_frames (idxstack.pushed - idxstack.pulled) waits (record {
      port = port;
      idxstack = idxstack;
      iomap = iomap;
      dctime = dctime;
      wkc = 0;
      valid_wkc = false;
    }) in
    (record r { idxstack = clearindex r.idxstack }, if r.valid_wkc then pos r.wkc else ec_noframe)
