-- ===== src/Foe/Tests.antt =====
-- Files that are written and read.
use ether_cat_master.Prelude.{
  ℕ, List, suc, ◌+◌, ◌*◌, ◌%◌, ◌≡◌, refl, true, false, [], ◌∷◌, length, inl, arith, ◌≢◌,
}
use ether_cat_master.Prelude.Int.{pos}
use ether_cat_master.Memory.{Buffer, zeros}
use ether_cat_master.Mailbox.{Mailboxes, mailbox, counted, returns}
use ether_cat_master.Foe.{File, Client, maxdata}
use ether_cat_master.Foe.Read.{foe_read}
use ether_cat_master.Foe.Write.{foe_write}
use ether_cat_master.Foe.Sink.{FileSink, answer, to_sink}
use ether_cat_master.Foe.Bounds.{Returns, Leaves, foe_read-Returns, foe_read-Leaves}
use ether_cat_master.Foe.Written.{Delivers, foe_write-Delivers}
use ether_cat_master.Foe.GivesUp.{to_slow_sink, foe_write_gives_up}

abbrev counting : Buffer
counting j = (j * 3 + 1) % 256

abbrev file : File
file = record { filename = counting; name_length = 5; password = 0; mbx_l = 20; hook = true }

abbrev client : {S : Type 0} → S → Client S
client link = record { link = link; mbx_cnt = 0; reports = [] }

-- The slave is busy when the second packet comes.
abbrev fresh : FileSink
fresh = record {
  value = zeros;
  place = 0;
  packets = 0;
  complete = false;
  busy = false ∷ true ∷ [];
  replies = [];
}

odd : 21 % maxdata file ≢ 0
odd h = absurd (omega arith)

foe_write-Delivers_example : Delivers 21 counting (
    foe_write
      (to_sink (maxdata file))
      file
      counting
      (2 * (21 + length (false ∷ true ∷ [])) + 2)
      21
      (client fresh))
foe_write-Delivers_example =
    foe_write-Delivers file 21 counting (client fresh)
      (record { place = refl; packets = refl; complete = refl; replies = refl }) (omega arith)
      (omega arith) (omega arith) (inl odd)

-- A slave that is always busy.
abbrev busy_slave : Mailboxes ℕ
busy_slave = record {
  getmbx = λ s. (s, zeros);
  dropmbx = λ s. s;
  mbxsend = λ s mbx. (s + 1, 1);
  mbxreceive = λ s. (s, mailbox 0 (answer 6 0));
}

foe_read-Returns_example :
    Returns busy_slave file 64 (foe_read busy_slave file 64 (64 + 1) zeros (client 0))
foe_read-Returns_example =
    foe_read-Returns busy_slave file 64 zeros (client 0) (omega arith) (omega arith)

foe_read-Leaves_example : Leaves busy_slave file 64 3 zeros (
    foe_read
      (counted busy_slave)
      file
      64
      10
      zeros
      (record { link = (0, 3); mbx_cnt = 0; reports = [] }))
foe_read-Leaves_example = foe_read-Leaves busy_slave file 64 10 3 zeros (client 0)

-- Two more answers wait: busy again, and then the acknowledgement.
abbrev later : List Buffer
later = answer 6 0 ∷ answer 4 0 ∷ []

foe_write_gives_up_example :
    (c' : Client FileSink) × (foe_write
        (to_slow_sink (maxdata file) later)
        file
        counting
        (suc 9)
        21
        (client fresh)
      ≡ returns (c', pos 1))
    × (c'.link.packets ≡ 0)
    × (c'.link.complete ≡ false)
    × (c'.link.value ≡ zeros)
    × (c'.link.replies ≡ later)
foe_write_gives_up_example = foe_write_gives_up file later counting 21 (client fresh) 9 refl
