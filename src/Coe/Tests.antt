-- ===== src/Coe/Tests.antt =====
-- Objects that are written and read.
use ether_cat_master.Prelude.{
  ℕ, ◌+◌, ◌*◌, ◌/◌, ◌%◌, ◌==◌, if◌then◌else◌, ◌≡◌, refl, true, false, [], some, inl, arith,
}
use ether_cat_master.Memory.{Buffer, zeros, get16, get32}
use ether_cat_master.Mailbox.{Exchange, nothing, unfinished}
use ether_cat_master.Master.Errors.{ErrorRing, blank_error}
use ether_cat_master.Coe.{Access, Client}
use ether_cat_master.Coe.Sink.{Sink, sink, to_sink}
use ether_cat_master.Coe.Source.{Source, first_response, from_source}
use ether_cat_master.Coe.Delivery.{Delivers}
use ether_cat_master.Coe.Collect.{Collects}
use ether_cat_master.Coe.Written.{sdo_write-Delivers}
use ether_cat_master.Coe.ReadBack.{sdo_read-Collects}
use ether_cat_master.Coe.Ends.{Returns, sdo_write-Returns, sdo_read_endless}
use ether_cat_master.Coe.Read.{sdo_read, take_object}
use ether_cat_master.Coe.Write.{sdo_write, expedited_request}

abbrev counting : Buffer
counting j = (j * 3 + 1) % 256

abbrev object : Access
object = record { slave = 1; index = 0x1c12; subindex = 0; ca = true; time = 0 }

abbrev no_errors : ErrorRing
no_errors = record { head = 0; tail = 0; errors = λ i. blank_error 0 0; ecaterror = false }

abbrev client : {S : Type 0} → S → Client S
client link = record { link = link; mbx_cnt = 0; elist = no_errors }

abbrev empty_sink : Sink
empty_sink = record { value = zeros; place = 0; toggle = 0; complete = false; replies = [] }

abbrev full_source : Source
full_source = record { place = 0; toggle = 0; replies = [] }

-- Twenty bytes in mailboxes of twenty: four, eleven and five bytes.
sdo_write-Delivers_example :
    Delivers 20 counting no_errors
      (sdo_write to_sink object (20 / 7 + 1) 20 20 counting (client empty_sink))
sdo_write-Delivers_example =
    sdo_write-Delivers object 20 20 counting (client empty_sink) (omega arith) refl (omega arith)
      (omega arith) (omega arith) (omega arith)

sdo_read-Collects_example :
    Collects counting 20 20 zeros no_errors
      (sdo_read (from_source counting 20 20) object (20 / 7 + 1) 64 zeros (client full_source))
sdo_read-Collects_example =
    sdo_read-Collects counting 20 20 object 64 zeros (client full_source) refl (omega arith)
      (omega arith) (omega arith) (omega arith) (omega arith)

sdo_write-Returns_example :
    Returns to_sink object
      (sdo_write to_sink object (20 / 7 + 1) 20 20 counting (client empty_sink))
sdo_write-Returns_example =
    sdo_write-Returns to_sink object 20 20 counting (client empty_sink) (inl (omega arith))

-- A slave that takes no mailbox.
abbrev lost : Exchange ℕ
lost = record {
  getmbx = λ s. (s, some zeros);
  dropmbx = λ s. s;
  mbxsend = λ s mbx. (s, 0);
  mbxreceive = λ s. (s, nothing 0);
}

abbrev request : Buffer
request j = if j == 9 then 0x12 else if j == 10 then 0x1c else 0

sdo_read_endless_example :
    take_object lost object 1000 0 (first_response counting 20 20 request) 64 zeros (client 5)
    ≡ unfinished
unfolding first_response get16 get32
sdo_read_endless_example =
    sdo_read_endless lost object (λ s. Unit)
      (record {
        pool = λ s d. (zeros, refl);
        fetched = λ s d. tt;
        lost = λ s mbx d. refl;
        stays = λ s mbx d. tt;
      })
      1000 0 64 (first_response counting 20 20 request) zeros (client 5) tt refl refl refl
      (omega arith) (omega arith) (omega arith)

-- No bytes are written as four.
no_bytes : (sink empty_sink (expedited_request object 0 counting 1 zeros)).place ≡ 4
unfolding sink expedited_request
no_bytes = refl
