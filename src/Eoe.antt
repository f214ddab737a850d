-- ===== src/Eoe.antt =====
-- Ethernet over EtherCAT (src/ec_eoe.c): frames in fragments.
pub mod Send
pub mod Params
pub mod ParamSafety
pub mod Receive
pub mod Steps
pub mod Fragment
pub mod InStep
pub mod Wire
pub mod RoundTrip
pub mod Ends
pub mod Safety
pub mod ReadFragment
mod Tests
use ether_cat_master.Prelude.{ℕ, ◌+◌, ◌*◌, ◌/◌, ◌%◌, ◌==◌, ltb, Bool, true, false, if◌then◌else◌}
use ether_cat_master.Prelude.Int.{ℤ, negsuc}
use ether_cat_master.Memory.{Buffer, from, get16}

-- ECT_MBXT_EOE
abbrev pub mbxt_eoe : ℕ
mbxt_eoe = 2

-- The fields of `frameinfo1`: type, port, and the flags of the last fragment and of a timestamp.
-- Fields do not overlap, so `|` is `+`.
abbrev pub frame_type : ℕ → ℕ
frame_type frameinfo1 = frameinfo1 % 16

abbrev pub frame_port : ℕ → ℕ
frame_port frameinfo1 = frameinfo1 / 16 % 16

abbrev pub last_fragment : ℕ → ℕ
last_fragment frameinfo1 = frameinfo1 / 256 % 2

abbrev pub time_append : ℕ → ℕ
time_append frameinfo1 = frameinfo1 / 512 % 2

abbrev pub frameinfo1_of : ℕ → ℕ → ℕ → ℕ
frameinfo1_of type port last = type % 16 + port % 16 * 16 + last % 2 * 256

-- The fields of `frameinfo2`: fragment number, offset in blocks of 32 bytes, frame number.
abbrev pub frag_no : ℕ → ℕ
frag_no frameinfo2 = frameinfo2 % 64

abbrev pub frame_offset : ℕ → ℕ
frame_offset frameinfo2 = frameinfo2 / 64 % 64

abbrev pub frame_no : ℕ → ℕ
frame_no frameinfo2 = frameinfo2 / 4096 % 16

abbrev pub frameinfo2_of : ℕ → ℕ → ℕ → ℕ
frameinfo2_of fragment offset frame = fragment % 64 + offset % 64 * 64 + frame % 16 * 4096

-- `ec_EOEt`: the words behind the mailbox header, and the data.
abbrev pub frameinfo1 : Buffer → ℕ
frameinfo1 mbx = get16 mbx 6

abbrev pub frameinfo2 : Buffer → ℕ
frameinfo2 mbx = get16 mbx 8

abbrev pub eoe_data : ℕ
eoe_data = 10

-- -EC_ERR_TYPE_EOE_INVALID_RX_DATA and -EC_ERR_TYPE_PACKET_ERROR
abbrev pub invalid_rx_data : ℤ
invalid_rx_data = negsuc 10

abbrev pub unexpected_packet : ℤ
unexpected_packet = negsuc 2
