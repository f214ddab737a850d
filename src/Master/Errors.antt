-- ===== src/Master/Errors.antt =====
-- The error list: `ecx_pusherror`, `ecx_poperror`, `ecx_iserror` and the reports that use them.
pub mod Queue
use ether_cat_master.Prelude.{ℕ, ◌+◌, ◌%◌, ◌==◌, ltb, Bool, true, false, not, if◌then◌else◌}
use ether_cat_master.Memory.{Array, update}

-- `ec_err_type`.
pub data ErrorType : Type 0 where
  sdo_error emergency packet_error sdoinfo_error foe_error foe_buf2small : ErrorType
  foe_packetnumber soe_error mbx_error foe_file_notfound eoe_invalid_rx_data : ErrorType

-- `ec_errort`. The union holds the fields of an emergency; the abort code, which lies over them, is
-- not written by the functions below.
pub record Error : Type 0 where
  pub time : ℕ
  pub signal : Bool
  pub slave : ℕ
  pub index : ℕ
  pub sub_idx : ℕ
  pub etype : ErrorType
  pub error_code : ℕ
  pub error_reg : ℕ
  pub b1 : ℕ
  pub w1 : ℕ
  pub w2 : ℕ

-- EC_MAXELIST, as the build sets it.
abbrev pub ec_maxelist : ℕ
ec_maxelist = 64

-- `ec_eringt`, and the flag `ecaterror` of the context.
pub record ErrorRing : Type 0 where
  pub head : ℕ
  pub tail : ℕ
  pub errors : Array Error
  pub ecaterror : Bool

-- `if (i > EC_MAXELIST) i = 0;`
abbrev pub wrap_index : ℕ → ℕ
wrap_index i = if ltb ec_maxelist i then 0 else i

unfoldable pub pusherror : ErrorRing → Error → ErrorRing
unfolding update
pusherror elist e =
    let head = wrap_index (elist.head + 1) in
    let tail = wrap_index (if head == elist.tail then elist.tail + 1 else elist.tail) in
    record {
      head = head;
      tail = tail;
      errors = update elist.errors elist.head (record e { signal = true });
      ecaterror = true;
    }

unfoldable pub iserror : ErrorRing → Bool
iserror elist = not (elist.head == elist.tail)

-- The result is the ring, the error that is copied out, and whether there was one.
unfoldable pub poperror : ErrorRing → ErrorRing × Error × Bool
unfolding update
poperror elist =
    let e = elist.errors elist.tail in
    let not_empty = not (elist.head == elist.tail) in
    let errors = update elist.errors elist.tail (record e { signal = false }) in
    if not_empty
    then (record elist { errors = errors; tail = wrap_index (elist.tail + 1) }, e, true)
    else (record elist { errors = errors; ecaterror = false }, e, false)

-- An error with all other fields zero; SDO errors have the number 0.
abbrev pub blank_error : ℕ → ℕ → Error
blank_error time slave = record {
  time = time;
  signal = false;
  slave = slave;
  index = 0;
  sub_idx = 0;
  etype = sdo_error;
  error_code = 0;
  error_reg = 0;
  b1 = 0;
  w1 = 0;
  w2 = 0;
}

-- `time` is what `osal_current_time` gives.
unfoldable pub packeterror : ErrorRing → ℕ → ℕ → ℕ → ℕ → ℕ → ErrorRing
packeterror elist time slave index sub_idx error_code =
    pusherror (record elist { ecaterror = true })
      (record (blank_error time slave) {
        index = index;
        sub_idx = sub_idx;
        etype = packet_error;
        error_code = error_code;
      })

unfoldable pub mbxerror : ErrorRing → ℕ → ℕ → ℕ → ErrorRing
mbxerror elist time slave detail =
    pusherror elist (record (blank_error time slave) { etype = mbx_error; error_code = detail })

-- The register is cut to a byte.
unfoldable pub mbxemergencyerror : ErrorRing → ℕ → ℕ → ℕ → ℕ → ℕ → ℕ → ℕ → ErrorRing
mbxemergencyerror elist time slave error_code error_reg b1 w1 w2 =
    pusherror elist (record (blank_error time slave) {
      etype = emergency;
      error_code = error_code;
      error_reg = error_reg % 256;
      b1 = b1;
      w1 = w1;
      w2 = w2;
    })
