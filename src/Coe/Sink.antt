-- ===== src/Coe/Sink.antt =====
-- A slave that follows the SDO protocol of CoE and takes an object in: what a download is meant to do,
-- without regard to the code of the master.
use ether_cat_master.Prelude.{
  ℕ, ◌+◌, ◌-◌, ◌*◌, ◌/◌, ◌%◌, ◌==◌, ltb, leb, Bool, true, if◌then◌else◌, List, [], ◌∷◌, ◌++◌, some,
  ◌&&◌,
}
use ether_cat_master.Memory.{Buffer, get16, get32, copy, from, zeros}
use ether_cat_master.Mailbox.{Exchange, Reception, mailbox, nothing}

-- The object, how much of it has come, the toggle bit of the next segment, whether the object is
-- complete, and the responses that wait for the master.
pub record Sink : Type 0 where
  pub value : Buffer
  pub place : ℕ
  pub toggle : ℕ
  pub complete : Bool
  pub replies : List Buffer

-- A response to a message, with the index and subindex of the message.
abbrev pub reply : ℕ → Buffer → Buffer
reply cmd mbx j =
    if j == 0
    then 10
    else if j == 5
    then 3
    else if j == 7
    then 0x30
    else if j == 8
    then cmd
    else if leb 9 j && ltb j 12
    then mbx j
    else 0

-- So many bytes of a message from an offset on.
abbrev pub append_bytes : Sink → ℕ → ℕ → Buffer → Buffer
append_bytes s offset n mbx = copy s.value s.place (from mbx offset) n

abbrev pub sink_expedited : Sink → Buffer → Sink
sink_expedited s mbx = record s {
  value = copy s.value 0 (from mbx 12) (4 - mbx 8 / 4 % 4);
  place = 4 - mbx 8 / 4 % 4;
  complete = true;
  replies = s.replies ++ (reply 0x60 mbx ∷ []);
}

-- The first part has the whole size in front.
abbrev pub sink_first : Sink → Buffer → Sink
sink_first s mbx = record s {
  value = copy s.value 0 (from mbx 16) (get16 mbx 0 - 10);
  place = get16 mbx 0 - 10;
  toggle = 0;
  complete = get16 mbx 0 - 10 == get32 mbx 12;
  replies = s.replies ++ (reply 0x60 mbx ∷ []);
}

-- A short segment is filled up to seven bytes.
abbrev pub segment_bytes : Buffer → ℕ
segment_bytes mbx = if get16 mbx 0 == 10 then 7 - mbx 8 / 2 % 8 else get16 mbx 0 - 3

abbrev pub sink_segment : Sink → Buffer → Sink
sink_segment s mbx = record s {
  value = copy s.value s.place (from mbx 9) (segment_bytes mbx);
  place = s.place + segment_bytes mbx;
  toggle = if s.toggle == 0 then 16 else 0;
  complete = mbx 8 % 2 == 1;
  replies = s.replies ++ (reply (0x20 + s.toggle) mbx ∷ []);
}

-- A message of another kind, or with the wrong toggle bit, is aborted.
unfoldable pub sink : Sink → Buffer → Sink
unfolding copy from get16 get32
sink s mbx =
    if mbx 8 / 32 == 1
    then if mbx 8 / 2 % 2 == 1 then sink_expedited s mbx else sink_first s mbx
    else if mbx 8 / 32 == 0 && mbx 8 / 16 % 2 * 16 == s.toggle
    then sink_segment s mbx
    else record s { replies = s.replies ++ (reply 0x80 mbx ∷ []) }

abbrev pub next_reply : Sink → List Buffer → Sink × Reception
next_reply s [] = (s, nothing 0)
next_reply s (r ∷ rs) = (record s { replies = rs }, mailbox 0 r)

-- The exchange with such a slave.
abbrev pub to_sink : Exchange Sink
to_sink = record {
  getmbx = λ s. (s, some zeros);
  dropmbx = λ s. s;
  mbxsend = λ s mbx. (sink s mbx, 1);
  mbxreceive = λ s. next_reply s s.replies;
}
