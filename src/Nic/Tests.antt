-- ===== src/Nic/Tests.antt =====
-- Frames on examples: buffers 2 and 5 are out, and the frame of buffer 2 comes in.
use ether_cat_master.Prelude.{
  ℕ, ◌<◌, ◌≡◌, ◌≢◌, ◌⊎◌, refl, true, false, none, some, ◌==◌, if◌then◌else◌, [], arith,
}
use ether_cat_master.Memory.{Array, Buffer, update, zeros, copy, from, get16}
use ether_cat_master.Nic.{
  BufState, empty, alloc, tx, complete, rcvd, ec_maxbuf, Stack, Port, getindex, is_noframe,
  get16_be,
}
use ether_cat_master.Nic.Index.{getindex_lem}
use ether_cat_master.Nic.Receive.{inframe, fetch, sort_frame, store_frame, strip}
use ether_cat_master.Nic.Receive.Match.{IsFor, inframe_answer, inframe_reorders}
use ether_cat_master.Nic.Wait.{expires, goes_on, Attempts, last_try, retry}

-- A frame of index 2 with one datagram of four bytes: its length word is 16, and the work counter 1
-- stands behind it.
abbrev answer : Buffer
answer j =
    if j == 12
    then 0x88
    else if j == 13
    then 0xa4
    else if j == 14
    then 16
    else if j == 15
    then 0x10
    else if j == 17
    then 2
    else if j == 30
    then 1
    else 0

abbrev statuses : Array BufState
statuses i = if i == 2 then tx else if i == 5 then tx else empty

abbrev two_out : Stack
two_out = record {
  rxbuf = λ i. zeros;
  rxbufstat = statuses;
  rxsa = zeros;
  tempbuf = zeros;
  rxcnt = 0;
}

abbrev port_out : Port
port_out = record {
  stack = two_out;
  red = none;
  txbuf = λ i. zeros;
  txbuflength = λ i. 32;
  txbuf2 = zeros;
  txbuflength2 = 0;
  lastidx = 1;
  sent = [];
}

abbrev lengths : Array ℕ
lengths i = 32

getindex_lem_example :
    ((getindex port_out).0 < ec_maxbuf)
    × ((getindex port_out).1.stack.rxbufstat (getindex port_out).0 ≡ alloc)
    × ((i : ℕ) → i ≢ (getindex port_out).0 → (getindex port_out).1.stack.rxbufstat i ≡ statuses i)
    × (3 < ec_maxbuf → statuses 3 ≡ empty → statuses (getindex port_out).0 ≡ empty)
getindex_lem_example = getindex_lem port_out 3

answered : is_noframe (inframe lengths two_out 2 (some answer)).1 ≡ false
unfolding inframe sort_frame store_frame fetch strip copy from update get16 get16_be
answered = refl

inframe_answer_example :
    ((inframe lengths two_out 2 (some answer)).0.rxbufstat 2 ≡ complete)
    × ((statuses 2 ≡ rcvd) ⊎ IsFor 2 (some answer))
inframe_answer_example = inframe_answer lengths two_out 2 (some answer) answered

inframe_reorders_example :
    (inframe lengths (inframe lengths two_out 5 (some answer)).0 2 none).1
    ≡ (inframe lengths two_out 2 (some answer)).1
unfolding get16_be
inframe_reorders_example =
    inframe_reorders lengths two_out 2 5 answer (omega arith) (omega arith) refl (ground arith) refl
      refl (omega arith) (omega arith)

-- The first try reads a frame for somebody else and then nothing; the second try is answered.
abbrev tries : Attempts
tries =
    retry
      (record {
        taken = true;
        taken2 = false;
        rounds =
            goes_on (record { polled = true; primary = some answer; second = none })
              (expires (record { polled = false; primary = none; second = none }));
        again = record {
          taken = false;
          rounds = expires (record { polled = false; primary = none; second = none });
        };
      })
      (last_try (record {
        taken = true;
        taken2 = false;
        rounds = expires (record { polled = true; primary = some answer; second = none });
        again = record {
          taken = false;
          rounds = expires (record { polled = false; primary = none; second = none });
        };
      }))
