-- ===== src/Coe.antt =====
-- CAN application protocol over EtherCAT (src/ec_coe.c): what the requests share.
pub mod Read
pub mod Write
pub mod Steps
pub mod Ends
pub mod Sink
pub mod Delivery
pub mod Written
pub mod Source
pub mod Collect
pub mod ReadBack
mod Tests
use ether_cat_master.Prelude.{ℕ, ◌+◌, ◌*◌, ◌/◌, ◌%◌, ◌==◌, ltb, Bool, true, ◌&&◌, if◌then◌else◌}
use ether_cat_master.Memory.{Buffer, update, put16, get16, get32}
use ether_cat_master.Mailbox.{put_mbxheader, mbxtype}
use ether_cat_master.Master.Errors.{
  ErrorRing, blank_error, pusherror, sdo_error, sdoinfo_error, packeterror,
}

-- ECT_MBXT_COE, and the services ECT_COES_SDOREQ and ECT_COES_SDORES in their four bits.
abbrev pub mbxt_coe : ℕ
mbxt_coe = 3

abbrev pub sdo_req : ℕ
sdo_req = 2

abbrev pub sdo_res : ℕ
sdo_res = 3

-- The commands of `ECT_SDO_...`.
abbrev pub sdo_down_init : ℕ
sdo_down_init = 0x21

abbrev pub sdo_down_exp : ℕ
sdo_down_exp = 0x23

abbrev pub sdo_down_init_ca : ℕ
sdo_down_init_ca = 0x31

abbrev pub sdo_up_req : ℕ
sdo_up_req = 0x40

abbrev pub sdo_up_req_ca : ℕ
sdo_up_req_ca = 0x50

abbrev pub sdo_seg_up_req : ℕ
sdo_seg_up_req = 0x60

abbrev pub sdo_abort : ℕ
sdo_abort = 0x80

-- `ec_SDOt`: the words behind the mailbox header, and where the data stand: `bdata` of a normal
-- request, its second word, and the data of a segment, which begin at the index.
abbrev pub service : Buffer → ℕ
service mbx = get16 mbx 6 / 4096

abbrev pub command : Buffer → ℕ
command mbx = mbx 8

abbrev pub index_of : Buffer → ℕ
index_of mbx = get16 mbx 9

abbrev pub subindex_of : Buffer → ℕ
subindex_of mbx = mbx 11

abbrev pub sdo_data : ℕ
sdo_data = 12

abbrev pub sdo_long_data : ℕ
sdo_long_data = 16

abbrev pub segment_data : ℕ
segment_data = 9

-- What an access to an object names, and what `osal_current_time` gives for its errors.
pub record Access : Type 0 where
  pub slave : ℕ
  pub index : ℕ
  pub subindex : ℕ
  pub ca : Bool
  pub time : ℕ

-- The link to the slave, its mailbox counter, and the error list of the context.
pub record Client (S : Type 0) : Type 0 where
  pub link : S
  pub mbx_cnt : ℕ
  pub elist : ErrorRing

-- Complete access begins at subindex 0 or 1.
abbrev pub subindex_sent : Access → ℕ
subindex_sent a = if a.ca && ltb 1 a.subindex then 1 else a.subindex

-- `toggle ^ 0x10`
abbrev pub toggled : ℕ → ℕ
toggled toggle = if toggle == 0 then 0x10 else 0

-- The headers and the command.
unfoldable pub put_command : ℕ → ℕ → ℕ → Buffer → Buffer
unfolding put_mbxheader put16 update
put_command length cnt cmd mbx =
    update (put16 (put_mbxheader mbx length mbxt_coe cnt) 6 (sdo_req * 4096)) 8 cmd

-- The same with the object.
unfoldable pub put_request : ℕ → ℕ → ℕ → ℕ → ℕ → Buffer → Buffer
unfolding put_command
put_request length cnt cmd index subindex mbx =
    update (put16 (put_command length cnt cmd mbx) 9 index) 11 subindex

-- A response of CoE with the service of an SDO response.
abbrev pub is_response : Buffer → Bool
is_response mbx = mbxtype mbx == mbxt_coe && service mbx == sdo_res

-- `ecx_SDOerror`. The abort code lies over the fields of an emergency, its low word first.
unfoldable pub sdoerror : ErrorRing → Access → ℕ → ErrorRing
unfolding pusherror
sdoerror elist a code =
    pusherror (record elist { ecaterror = true })
      (record (blank_error a.time a.slave) {
        index = a.index;
        sub_idx = a.subindex;
        etype = sdo_error;
        error_code = code % 65536;
        error_reg = code / 65536 % 256;
        b1 = code / 16777216 % 256;
      })

-- `ecx_SDOinfoerror`, which sets no time.
unfoldable pub sdoinfoerror : ErrorRing → Access → ℕ → ErrorRing
unfolding pusherror
sdoinfoerror elist a code =
    pusherror (record elist { ecaterror = true })
      (record (blank_error 0 a.slave) {
        index = a.index;
        sub_idx = a.subindex;
        etype = sdoinfo_error;
        error_code = code % 65536;
        error_reg = code / 65536 % 256;
        b1 = code / 16777216 % 256;
      })

abbrev pub packet_failed : ErrorRing → Access → ℕ → ErrorRing
packet_failed elist a code = packeterror elist a.time a.slave a.index a.subindex code

-- The report of a response that was not expected: an abort, or another frame.
unfoldable pub unexpected : Access → Buffer → ErrorRing → ErrorRing
unfolding sdoerror packeterror get32
unexpected a mbx elist =
    if command mbx == sdo_abort
    then sdoerror elist a (get32 mbx sdo_data)
    else packet_failed elist a 1
