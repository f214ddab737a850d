-- ===== src/Foe/Sink.antt =====
-- A slave that follows the protocol of FoE and takes a file in. It is busy as its schedule says: then it
-- passes over a packet and asks for it again.
use ether_cat_master.Prelude.{
  ℕ, ◌+◌, ◌-◌, ◌==◌, ltb, Bool, true, false, if◌then◌else◌, List, [], ◌∷◌, ◌++◌,
}
use ether_cat_master.Memory.{Buffer, get16, get32, put32, copy, from, zeros}
use ether_cat_master.Mailbox.{Mailboxes, Reception, mailbox, nothing}

-- The file, how much of it has come in how many packets, whether it is complete, for each packet to
-- come whether the slave is busy then, and the responses that wait for the master.
pub record FileSink : Type 0 where
  pub value : Buffer
  pub place : ℕ
  pub packets : ℕ
  pub complete : Bool
  pub busy : List Bool
  pub replies : List Buffer

abbrev head_of : ℕ → Buffer
head_of op j = if j == 0 then 6 else if j == 5 then 4 else if j == 6 then op else 0

-- A response with a packet number.
unfoldable pub answer : ℕ → ℕ → Buffer
unfolding put32
answer op number = put32 (head_of op) 8 number

abbrev pub replying : FileSink → Buffer → FileSink
replying s r = record s { replies = s.replies ++ (r ∷ []) }

-- A packet with fewer bytes than a full one is the last.
module _ (full : ℕ) where
  abbrev pub stored : FileSink → List Bool → Buffer → FileSink
  stored s rest mbx = record {
    value = copy s.value s.place (from mbx 12) (get16 mbx 0 - 6);
    place = s.place + (get16 mbx 0 - 6);
    packets = s.packets + 1;
    complete = ltb (get16 mbx 0 - 6) full;
    busy = rest;
    replies = s.replies ++ (answer 4 (s.packets + 1) ∷ []);
  }

  abbrev pub passed_over : FileSink → List Bool → FileSink
  passed_over s rest = record s { busy = rest; replies = s.replies ++ (answer 6 0 ∷ []) }

  abbrev accept : FileSink → List Bool → Buffer → FileSink
  accept s rest mbx =
      if get32 mbx 8 == s.packets + 1 then stored s rest mbx else replying s (answer 5 0)

  abbrev pub take_packet : FileSink → List Bool → Buffer → FileSink
  take_packet s [] mbx = accept s [] mbx
  take_packet s (true ∷ rest) mbx = passed_over s rest
  take_packet s (false ∷ rest) mbx = accept s rest mbx

  unfoldable pub sink : FileSink → Buffer → FileSink
  unfolding copy from get16 get32
  sink s mbx =
      if mbx 6 == 2
      then replying s (answer 4 0)
      else if mbx 6 == 3
      then take_packet s s.busy mbx
      else replying s (answer 5 0)

  abbrev pub next_reply : FileSink → List Buffer → FileSink × Reception
  next_reply s [] = (s, nothing 0)
  next_reply s (r ∷ rs) = (record s { replies = rs }, mailbox 0 r)

  -- The exchange with such a slave.
  abbrev pub to_sink : Mailboxes FileSink
  to_sink = record {
    getmbx = λ s. (s, zeros);
    dropmbx = λ s. s;
    mbxsend = λ s mbx. (sink s mbx, 1);
    mbxreceive = λ s. next_reply s s.replies;
  }
