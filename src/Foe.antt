-- ===== src/Foe.antt =====
-- File access over EtherCAT (src/ec_foe.c): what reading and writing share.
pub mod Read
pub mod Write
pub mod Bounds
pub mod Sink
pub mod Ready
pub mod Resend
pub mod Written
pub mod GivesUp
mod Tests
use ether_cat_master.Prelude.{ℕ, ◌+◌, ◌%◌, ltb, Bool, true, false, if◌then◌else◌, List, ◌∷◌}
use ether_cat_master.Prelude.Int.{ℤ, negsuc}
use ether_cat_master.Memory.{Buffer, update, get32, put32, copy}
use ether_cat_master.Mailbox.{Mailboxes, ec_maxmbx, put_mbxheader}

-- ECT_MBXT_FOE
abbrev pub mbxt_foe : ℕ
mbxt_foe = 4

-- ECT_FOE_READ to ECT_FOE_BUSY.
abbrev pub foe_read_request : ℕ
foe_read_request = 1

abbrev pub foe_write_request : ℕ
foe_write_request = 2

abbrev pub foe_data : ℕ
foe_data = 3

abbrev pub foe_ack : ℕ
foe_ack = 4

abbrev pub foe_error : ℕ
foe_error = 5

abbrev pub foe_busy : ℕ
foe_busy = 6

-- EC_MAXFOEDATA
abbrev pub ec_maxfoedata : ℕ
ec_maxfoedata = 1474

-- `ec_FOEt`: the operation; packet number, password and error code in one place; the data behind.
abbrev pub opcode : Buffer → ℕ
opcode mbx = mbx 6

abbrev pub number_of : Buffer → ℕ
number_of mbx = get32 mbx 8

abbrev pub packet_data : ℕ
packet_data = 12

-- The results -EC_ERR_TYPE_PACKET_ERROR, -EC_ERR_TYPE_FOE_ERROR, -EC_ERR_TYPE_FOE_BUF2SMALL,
-- -EC_ERR_TYPE_FOE_PACKETNUMBER and -EC_ERR_TYPE_FOE_FILE_NOTFOUND.
abbrev pub other_packet : ℤ
other_packet = negsuc 2

abbrev pub slave_error : ℤ
slave_error = negsuc 4

abbrev pub buffer_too_small : ℤ
buffer_too_small = negsuc 5

abbrev pub wrong_packetnumber : ℤ
wrong_packetnumber = negsuc 6

abbrev pub file_not_found : ℤ
file_not_found = negsuc 9

-- What a transfer names: the file name and its length, the password, and the mailbox of the slave. The
-- hook of the context is called for each packet, if there is one.
pub record File : Type 0 where
  pub filename : Buffer
  pub name_length : ℕ
  pub password : ℕ
  pub mbx_l : ℕ
  pub hook : Bool

-- The link to the slave, its mailbox counter, and the calls of the hook, the last one first.
pub record Client (S : Type 0) : Type 0 where
  pub link : S
  pub mbx_cnt : ℕ
  pub reports : List (ℕ × ℕ)

-- `ecx_FOEdefinehook`: whether there is a hook from now on, and the result 1.
unfoldable pub foe_define_hook : Bool → File → File × ℕ
foe_define_hook hook file = (record file { hook = hook }, 1)

-- `maxdata`, a uint16.
abbrev pub maxdata : File → ℕ
maxdata file = (file.mbx_l + 65524) % 65536

abbrev at_most : ℕ → ℕ → ℕ
at_most bound n = if ltb bound n then bound else n

-- `fnsize`
abbrev pub fnsize : File → ℕ
fnsize file = at_most (maxdata file) (at_most ec_maxfoedata (file.name_length % 65536))

-- Headers, operation and number of a message with so many bytes of data.
unfoldable pub put_foe : ℕ → ℕ → ℕ → ℕ → Buffer → Buffer
unfolding put_mbxheader update put32
put_foe size op number cnt mbx =
    put32 (update (put_mbxheader mbx ((6 + size) % 65536) mbxt_foe cnt) 6 op) 8 number

unfoldable pub file_request : ℕ → File → ℕ → Buffer → Buffer
unfolding put_foe copy
file_request op file cnt mbx =
    copy (put_foe (fnsize file) op file.password cnt mbx) packet_data file.filename (fnsize file)

abbrev pub reported : Bool → ℕ → ℕ → List (ℕ × ℕ) → List (ℕ × ℕ)
reported hook number size reports = if hook then (number, size) ∷ reports else reports

abbrev pub drop_if : {S : Type 0} → Mailboxes S → Bool → S → S
drop_if m true link = m.dropmbx link
drop_if m false link = link
