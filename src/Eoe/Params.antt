-- ===== src/Eoe/Params.antt =====
-- The IP parameters of a slave: `ecx_EOEsetIp` and `ecx_EOEgetIp`.
use ether_cat_master.Prelude.{
  ℕ, ◌+◌, ◌-◌, ◌/◌, ◌%◌, ◌==◌, ltb, Bool, true, not, ◌&&◌, ◌||◌, if◌then◌else◌, Option, none, some,
}
use ether_cat_master.Prelude.Int.{ℤ, pos, negsuc}
use ether_cat_master.Memory.{Buffer, update, put16, get16, copy, from}
use ether_cat_master.Mailbox.{
  Mailboxes, Reception, mailbox, nothing, Run, returns, undefined, nextmbxcnt, clearmbx,
  put_mbxheader, mbxtype, minus,
}
use ether_cat_master.Eoe.{
  mbxt_eoe, frameinfo1, frameinfo2, frameinfo1_of, frame_type, eoe_data, unexpected_packet,
}

-- `eoe_param_t`. An address is its bytes in memory, the first octet first.
pub record EoeParam : Type 0 where
  pub mac_set : Bool
  pub ip_set : Bool
  pub subnet_set : Bool
  pub default_gateway_set : Bool
  pub dns_ip_set : Bool
  pub dns_name_set : Bool
  pub mac : Buffer
  pub ip : Buffer
  pub subnet : Buffer
  pub default_gateway : Buffer
  pub dns_ip : Buffer
  pub dns_name : Buffer

-- `EOE_ip_uint32_to_byte` and `EOE_ip_byte_to_uint32`: the octets the other way round.
unfoldable pub reversed : Buffer → Buffer
reversed ip j = ip (3 - j)

-- The request on its way: the flags, the offset (a uint8) and the mailbox.
pub record Draft : Type 0 where
  pub flags : ℕ
  pub data_offset : ℕ
  pub mbx : Buffer

-- One parameter goes in, if it is set. Flags do not overlap, so `|` is `+`.
unfoldable pub put_param : Bool → ℕ → ℕ → Buffer → Draft → Draft
unfolding copy
put_param is_set flag length value d =
    if is_set
    then record {
      flags = d.flags + flag;
      data_offset = (d.data_offset + length) % 256;
      mbx = copy d.mbx (eoe_data + d.data_offset) value length;
    }
    else d

unfoldable pub put_params : EoeParam → Draft → Draft
unfolding put_param reversed
put_params p d =
    let d1 = put_param p.mac_set 1 6 p.mac d in
    let d2 = put_param p.ip_set 2 4 (reversed p.ip) d1 in
    let d3 = put_param p.subnet_set 4 4 (reversed p.subnet) d2 in
    let d4 = put_param p.default_gateway_set 8 4 (reversed p.default_gateway) d3 in
    let d5 = put_param p.dns_ip_set 16 4 (reversed p.dns_ip) d4 in
    put_param p.dns_name_set 32 32 p.dns_name d5

-- The header of both requests, the length apart.
unfoldable pub put_request : ℕ → ℕ → ℕ → ℕ → Buffer → Buffer
unfolding put_mbxheader put16
put_request type port length cnt mbx =
    put16 (put16 (put_mbxheader mbx length mbxt_eoe cnt) 6 (frameinfo1_of type port 1)) 8 0

unfoldable pub set_request : ℕ → EoeParam → ℕ → Buffer → Buffer
unfolding put_params put_request update
set_request port p cnt mbx =
    let d = put_params p (record { flags = 0; data_offset = 4; mbx = mbx }) in
    update (put_request 2 port (4 + d.data_offset) cnt d.mbx) eoe_data d.flags

unfoldable pub get_request : ℕ → ℕ → Buffer → Buffer
unfolding put_request update
get_request port cnt mbx = update (put_request 6 port 4 cnt mbx) eoe_data 0

-- The parameters that come in.
pub record Taking : Type 0 where
  pub params : EoeParam
  pub data_offset : ℕ

-- `flags & flag`, for a flag that is a power of two.
abbrev pub has_flag : Buffer → ℕ → Bool
has_flag mbx flag = mbx eoe_data / flag % 2 == 1

abbrev pub value_at : Buffer → Taking → Buffer
value_at mbx t = from mbx (eoe_data + t.data_offset)

-- `memcpy` of so many bytes to the start of a field.
abbrev pub filled : Buffer → Buffer → ℕ → Buffer
filled old new length = copy old 0 new length

-- A parameter with its flag is stored, and the offset moves on.
unfoldable pub take_param : Buffer → ℕ → ℕ → (Buffer → EoeParam → EoeParam) → Taking → Taking
unfolding from
take_param mbx flag length store t =
    if has_flag mbx flag
    then record {
      params = store (value_at mbx t) t.params;
      data_offset = (t.data_offset + length) % 256;
    }
    else t

-- The five parameters of a fixed length.
unfoldable pub take_addresses : Buffer → EoeParam → Taking
unfolding take_param reversed copy
take_addresses mbx p =
    let t1 =
      take_param mbx 1 6 (λ v q. record q { mac = filled q.mac v 6; mac_set = true })
        (record { params = p; data_offset = 4 }) in
    let t2 =
      take_param mbx 2 4 (λ v q. record q { ip = filled q.ip (reversed v) 4; ip_set = true }) t1 in
    let t3 =
      take_param mbx 4 4
        (λ v q. record q { subnet = filled q.subnet (reversed v) 4; subnet_set = true }) t2 in
    let t4 =
      take_param mbx 8 4
        (λ v q. record q {
          default_gateway = filled q.default_gateway (reversed v) 4;
          default_gateway_set = true;
        })
        t3 in
    take_param mbx 16 4
      (λ v q. record q { dns_ip = filled q.dns_ip (reversed v) 4; dns_ip_set = true }) t4

-- `eoedatasize`, a uint16.
abbrev pub param_size : Buffer → ℕ
param_size mbx = (get16 mbx 0 + 65532) % 65536

-- The name, of at most 32 bytes. None where its length is negative: `dns_len` is then a uint16 of
-- more than the field has.
unfoldable pub take_name : Buffer → Taking → Option Taking
unfolding take_param
take_name mbx t =
    let length =
      if ltb (param_size mbx) (t.data_offset + 32) then param_size mbx - t.data_offset else 32 in
    if has_flag mbx 32 && ltb (param_size mbx) t.data_offset
    then none
    else some (
        take_param mbx 32 32
          (λ v q. record q { dns_name = filled q.dns_name v length; dns_name_set = true }) t)

unfoldable pub take_params : Buffer → EoeParam → Option Taking
unfolding take_addresses take_name
take_params mbx p = take_name mbx (take_addresses mbx p)

-- The link to the slave and its mailbox counter.
pub record Session (S : Type 0) : Type 0 where
  pub link : S
  pub mbx_cnt : ℕ

module _ {S : Type 0} (m : Mailboxes S) where
  -- `if (MbxIn) ecx_dropmbx(context, MbxIn)`
  abbrev pub drop_received : S → Reception → S
  drop_received link (mailbox n mbx) = m.dropmbx link
  drop_received link (nothing k) = link

  -- The mailbox of the slave is emptied, and the request goes out: the link and the work counter.
  unfoldable pub post : (ℕ → Buffer → Buffer) → Session S → S × ℕ
  post build s =
      let (l1, stale) = m.mbxreceive s.link in
      let (l2, old) = m.getmbx l1 in
      let (l3, wkc) = m.mbxsend l2 (build (nextmbxcnt s.mbx_cnt) (clearmbx old)) in
      (drop_received l3 stale, wkc)

  -- The response comes in. Without a work counter there is none, and the result is 0.
  unfoldable pub request : (ℕ → Buffer → Buffer) → Session S → Session S × Reception
  unfolding post
  request build s =
      let sent = (post build s).0 in
      let (link, got) = m.mbxreceive sent in
      let cnt = nextmbxcnt s.mbx_cnt in
      if ltb 0 (post build s).1
      then (record { link = link; mbx_cnt = cnt }, got)
      else (record { link = sent; mbx_cnt = cnt }, nothing 0)

  abbrev pub finish : Session S → Reception → Session S
  finish s got = record s { link = drop_received s.link got }

  abbrev set_result : Reception → ℤ
  set_result (nothing k) = minus k
  set_result (mailbox n mbx) =
      if not (mbxtype mbx == mbxt_eoe)
      then unexpected_packet
      else if not (frame_type (frameinfo1 mbx) == 3) || not (frameinfo2 mbx == 0)
      then minus (frameinfo2 mbx)
      else pos (n + 1)

  unfoldable pub eoe_set_ip : ℕ → EoeParam → Session S → Session S × ℤ
  unfolding request set_request
  eoe_set_ip port p s =
      let (s', got) = request (set_request port p) s in (finish s' got, set_result got)

  -- The parameters and the result: -EOE_RESULT_UNSUPPORTED_FRAME_TYPE, -EC_ERR_TYPE_MBX_ERROR when the
  -- offset is behind the data, or the work counter.
  abbrev get_result : EoeParam → Reception → Run (EoeParam × ℤ)
  get_result p (nothing k) = returns (p, minus k)
  get_result p (mailbox n mbx) =
      if not (mbxtype mbx == mbxt_eoe)
      then returns (p, unexpected_packet)
      else if not (frame_type (frameinfo1 mbx) == 7)
      then returns (p, negsuc 1)
      else elim (take_params mbx p) [
        | none ↦ undefined
        | some t ↦
            returns (t.params, if ltb (param_size mbx) t.data_offset then negsuc 8 else pos (n + 1))
      ]

  unfoldable pub eoe_get_ip : ℕ → EoeParam → Session S → Session S × Run (EoeParam × ℤ)
  unfolding request get_request take_params
  eoe_get_ip port p s =
      let (s', got) = request (get_request port) s in (finish s' got, get_result p got)
