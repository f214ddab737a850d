-- ===== src/Eoe/Tests.antt =====
-- Frames on examples.
use ether_cat_master.Prelude.{ℕ, ◌+◌, ◌/◌, ◌<◌, ◌≤◌, ◌≡◌, refl, arith, inl, List, []}
use ether_cat_master.Prelude.Int.{pos}
use ether_cat_master.Memory.{Buffer, zeros, update}
use ether_cat_master.Mailbox.{returns, unfinished}
use ether_cat_master.Eoe.Send.{outgoing, fragment_size, Sender, eoe_send}
use ether_cat_master.Eoe.Receive.{Received, Progress, eoe_recv, eoe_readfragment}
use ether_cat_master.Eoe.Wire.{wire}
use ether_cat_master.Eoe.RoundTrip.{eoe_recv-eoe_send}
use ether_cat_master.Eoe.Ends.{Returns, eoe_send-Returns, eoe_send_endless}
use ether_cat_master.Eoe.ReadFragment.{IsInFrame, eoe_readfragment-IsInFrame}

abbrev counting : Buffer
counting j = j

abbrev sender : Sender (List Buffer)
sender = record { link = []; mbx_cnt = 7; txframeno = 15 }

-- A frame of 100 bytes goes in fragments of 64 and 36 bytes.
two_fragments :
    (fragment_size (outgoing 80 3 100 counting) 0 ≡ 64)
    × (fragment_size (outgoing 80 3 100 counting) 64 ≡ 36)
unfolding fragment_size
two_fragments = (refl, refl)

eoe_recv-eoe_send_example :
    (s' : Sender (List Buffer)) × (got : Received (List Buffer)) × (eoe_send wire
        (100 / 32 + 1)
        80
        3
        100
        counting
        sender
      ≡ returns (s', pos 1))
    × (eoe_recv wire 3 128 (100 / 32 + 1) zeros s'.link ≡ returns got)
    × (got.link ≡ [])
    × (got.wkc ≡ pos 1)
    × (got.psize ≡ pos 100)
    × ((j : ℕ) → j < 100 → got.buf j ≡ counting j)
eoe_recv-eoe_send_example =
    eoe_recv-eoe_send 80 3 100 128 counting zeros sender refl (omega arith) (omega arith)
      (omega arith) (omega arith) (omega arith)

eoe_send-Returns_example : Returns wire (eoe_send wire (100 / 32 + 1) 80 3 100 counting sender)
eoe_send-Returns_example = eoe_send-Returns wire 80 3 100 counting sender (inl (omega arith))

eoe_send_endless_example : eoe_send wire 1000 30 3 100 counting sender ≡ unfinished
eoe_send_endless_example =
    eoe_send_endless wire 1000 30 3 100 counting sender (λ link mbx. omega arith) (omega arith)
      (omega arith) (omega arith)

-- A fragment with a wrong number.
abbrev stray : Buffer
stray = update counting 5 2

abbrev progress : Progress
progress = record {
  rxfragmentno = 1;
  rxframesize = 128;
  rxframeoffset = 64;
  rxframeno = 5;
  psize = 1518;
  buf = zeros;
}

eoe_readfragment-IsInFrame_example :
    IsInFrame (eoe_readfragment stray progress).0
    × ((j : ℕ) → 1518 ≤ j → (eoe_readfragment stray progress).0.buf j ≡ 0)
eoe_readfragment-IsInFrame_example =
    eoe_readfragment-IsInFrame stray progress (omega arith, omega arith)
