-- ===== src/Base/Tests.antt =====
-- A broadcast read whose answer comes back at once.
use ether_cat_master.Prelude.{refl, arith, true, false, none, some, [], if◌then◌else◌, ◌==◌}
use ether_cat_master.Memory.{Buffer, zeros}
use ether_cat_master.Nic.{empty, Port, getindex}
use ether_cat_master.Nic.Wait.{expires, Attempts, last_try}
use ether_cat_master.Base.Transfer.{Call, call_brd, call, Released, call_releases}
use ether_cat_master.Frame.{brd}
use ether_cat_master.Nic.Wait.Wire.{Sends}
use ether_cat_master.Base.{request}
use ether_cat_master.Base.Wire.{IsRequest, request-Sends}

abbrev idle_port : Port
idle_port = record {
  stack = record {
    rxbuf = λ i. zeros;
    rxbufstat = λ i. empty;
    rxsa = zeros;
    tempbuf = zeros;
    rxcnt = 0;
  };
  red = none;
  txbuf = λ i. zeros;
  txbuflength = zeros;
  txbuf2 = zeros;
  txbuflength2 = 0;
  lastidx = 0;
  sent = [];
}

abbrev answer : Buffer
answer j =
    if j == 12
    then 0x88
    else if j == 13
    then 0xa4
    else if j == 14
    then 14
    else if j == 15
    then 0x10
    else if j == 16
    then 7
    else if j == 17
    then 1
    else if j == 26
    then 0xab
    else if j == 27
    then 0xcd
    else if j == 28
    then 1
    else 0

abbrev at_once : Attempts
at_once = last_try (record {
  taken = true;
  taken2 = false;
  rounds = expires (record { polled = true; primary = some answer; second = none });
  again = record {
    taken = false;
    rounds = expires (record { polled = false; primary = none; second = none });
  };
})

abbrev read_type : Call
read_type = call_brd 0 0 2

call_releases_example : Released idle_port (call idle_port read_type zeros at_once)
call_releases_example = call_releases idle_port at_once zeros read_type

request-Sends_example :
    Sends
      (IsRequest brd (getindex idle_port).0 0 0 2 zeros)
      []
      (request idle_port brd 0 0 2 zeros at_once).port.sent
request-Sends_example =
    request-Sends idle_port brd 0 0 2 zeros at_once refl (omega arith) (omega arith) (omega arith)
