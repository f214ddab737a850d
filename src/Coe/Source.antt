-- ===== src/Coe/Source.antt =====
-- A slave that follows the SDO protocol of CoE and gives an object out: what an upload is meant to read,
-- without regard to the code of the master.
use ether_cat_master.Prelude.{
  ℕ, ◌+◌, ◌-◌, ◌*◌, ◌/◌, ◌%◌, ◌==◌, ltb, leb, Bool, ◌&&◌, if◌then◌else◌, List, [], ◌∷◌, ◌++◌, some,
}
use ether_cat_master.Memory.{Buffer, put32, copy, from, zeros}
use ether_cat_master.Mailbox.{Exchange, Reception, mailbox, nothing}

-- How much of the object has gone out, the toggle bit of the next segment, and the responses that wait
-- for the master.
pub record Source : Type 0 where
  pub place : ℕ
  pub toggle : ℕ
  pub replies : List Buffer

-- A response to a message, of a length, with the index and subindex of the message.
abbrev pub response : ℕ → ℕ → Buffer → Buffer
response length cmd mbx j =
    if j == 0
    then length % 256
    else if j == 1
    then length / 256
    else if j == 5
    then 3
    else if j == 7
    then 0x30
    else if j == 8
    then cmd
    else if leb 9 j && ltb j 12
    then mbx j
    else 0

-- The object is `value`, of `size` bytes; a mailbox has `room` bytes, six of them for its header.
module _ (value : Buffer) (size room : ℕ) where
  -- What fits behind the headers of a first response, and of a segment.
  abbrev pub first_part : ℕ
  first_part = if leb size (room - 16) then size else room - 16

  abbrev pub next_part : ℕ → ℕ
  next_part place = if leb (size - place) (room - 9) then size - place else room - 9

  abbrev pub is_rest : ℕ → Bool
  is_rest place = leb (size - place) (room - 9)

  unfoldable pub expedited_response : Buffer → Buffer
  unfolding copy
  expedited_response mbx = copy (response 10 (0x43 + (4 - size) * 4) mbx) 12 value size

  unfoldable pub first_response : Buffer → Buffer
  unfolding copy put32
  first_response mbx =
      copy (put32 (response (10 + first_part) 0x41 mbx) 12 size) 16 value first_part

  -- A short segment is filled up to seven bytes.
  abbrev segment_code : ℕ → ℕ
  segment_code place =
      if is_rest place
      then if ltb (next_part place) 7 then 1 + (7 - next_part place) * 2 else 1
      else 0

  abbrev segment_length : ℕ → ℕ
  segment_length place = if ltb (next_part place) 7 then 10 else next_part place + 3

  unfoldable pub segment_response : ℕ → ℕ → Buffer → Buffer
  unfolding copy from
  segment_response place toggle mbx =
      copy (response (segment_length place) (segment_code place + toggle) mbx) 9 (from value place)
        (next_part place)

  abbrev pub give_first : Source → Buffer → Source
  give_first s mbx =
      if leb 1 size && leb size 4
      then record s { replies = s.replies ++ (expedited_response mbx ∷ []) }
      else record {
        place = first_part;
        toggle = 0;
        replies = s.replies ++ (first_response mbx ∷ []);
      }

  abbrev pub give_segment : Source → Buffer → Source
  give_segment s mbx = record {
    place = s.place + next_part s.place;
    toggle = if s.toggle == 0 then 16 else 0;
    replies = s.replies ++ (segment_response s.place s.toggle mbx ∷ []);
  }

  -- A message of another kind, or with the wrong toggle bit, is aborted.
  unfoldable pub source : Source → Buffer → Source
  source s mbx =
      if mbx 8 / 32 == 2
      then give_first s mbx
      else if mbx 8 / 32 == 3 && mbx 8 / 16 % 2 * 16 == s.toggle
      then give_segment s mbx
      else record s { replies = s.replies ++ (response 10 0x80 mbx ∷ []) }

  abbrev pub next_reply : Source → List Buffer → Source × Reception
  next_reply s [] = (s, nothing 0)
  next_reply s (r ∷ rs) = (record s { replies = rs }, mailbox 0 r)

  -- The exchange with such a slave.
  abbrev pub from_source : Exchange Source
  from_source = record {
    getmbx = λ s. (s, some zeros);
    dropmbx = λ s. s;
    mbxsend = λ s mbx. (source s mbx, 1);
    mbxreceive = λ s. next_reply s s.replies;
  }
