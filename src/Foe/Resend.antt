-- ===== src/Foe/Resend.antt =====
-- The packets that `ecx_FOEwrite` sends to a slave that may be busy.
use ether_cat_master.Prelude.{
  ℕ, ◌+◌, ◌-◌, ◌%◌, ◌<◌, ◌≤◌, ◌≡◌, ◌≢◌, refl, ◌==◌, ltb, Bool, true, false, not, if◌then◌else◌,
  arith, List, [], ◌∷◌, length, ◌⊎◌, inl, inr, ◌&&◌, ◌||◌, ap, ◌∙◌, Bool-cases,
}
use ether_cat_master.Prelude.Int.{pos}
use ether_cat_master.Memory.{Buffer, get16, get32, copy, from, zeros, copy-extends}
use ether_cat_master.Mailbox.{Mailboxes, nextmbxcnt, clearmbx}
use native.Mathlib.Nat.{mod-eq-sub-mod, mod-eq_of_lt}
use ether_cat_master.Foe.{File, maxdata}
use ether_cat_master.Foe.Sink.{
  FileSink, answer, stored, passed_over, replying, take_packet, sink, to_sink,
}
use ether_cat_master.Foe.Write.{Writing, packet_size, send_packet, send_next, write_packet}
use ether_cat_master.Foe.Ready.{
  packet, packet-op, packet-number, packet-size, packet-data, Ready, measure, acked, taken_back,
  write_packet-ack, write_packet-busy,
}

module _ (file : File) (total : ℕ) (p : Buffer) where
  abbrev full : ℕ
  full = maxdata file

  abbrev slave : Mailboxes FileSink
  slave = to_sink full

  module _ (u : Writing FileSink) where
    abbrev size : ℕ
    size = packet_size file u.psize

    abbrev pub next : Buffer
    next =
        packet (u.sendpacket + 1) size (nextmbxcnt u.client.mbx_cnt) (from p u.place)
          (clearmbx zeros)

    -- The variables when the packet has been sent and the slave is in a state.
    abbrev pub sent : FileSink → Writing FileSink
    sent s = record u {
      client = record u.client { link = s; mbx_cnt = nextmbxcnt u.client.mbx_cnt };
      wkc = pos 1;
      place = u.place + size;
      psize = u.psize - size;
      segmentdata = size;
      sendpacket = u.sendpacket + 1;
      dofinalzero = u.psize - size == 0 && size == full;
    }

    module _ (ready : Ready file total p u) (some_room : 0 < full) (small : full < 60000)
        (word : total < 2147483648) (open_file : u.client.link.complete ≡ false) where
      -- There is something to send.
      sendable : (not (size == 0) || u.dofinalzero) ≡ true
      sendable = elim (Bool-cases u.dofinalzero) [
        | inl e ↦ ground (arith, e)
        | inr e ↦ ground (arith, e, ready.unfinished_end, open_file)
      ]

      pub send_next-sends : send_next slave file p u ≡ (sent (sink full u.client.link next), true)
      unfolding send_next send_packet
      send_next-sends = rw sendable refl

      sink-next :
          sink full u.client.link next ≡ take_packet full u.client.link u.client.link.busy next
      unfolding sink
      sink-next =
          rw
            (packet-op (u.sendpacket + 1) size (nextmbxcnt u.client.mbx_cnt) (from p u.place)
              (clearmbx zeros))
            refl

      next-number : get32 next 8 ≡ u.client.link.packets + 1
      next-number =
          packet-number (u.sendpacket + 1) size (nextmbxcnt u.client.mbx_cnt) (from p u.place)
            (clearmbx zeros) (omega (arith, ready.few open_file, ready.left))
          ∙ omega (arith, ready.same_packets)

      next-size : get16 next 0 - 6 ≡ size
      next-size =
          packet-size (u.sendpacket + 1) size (nextmbxcnt u.client.mbx_cnt) (from p u.place)
            (clearmbx zeros) (ground arith)

      accepted :
          (rest : List Bool)
          → (if get32 next 8 == u.client.link.packets + 1
              then stored full u.client.link rest next
              else replying u.client.link (answer 5 0))
            ≡ stored full u.client.link rest next
      accepted rest =
          let test : (get32 next 8 == u.client.link.packets + 1) ≡ true =
            ground (arith, next-number) in
          rw test refl

      -- The slave stores the packet.
      abbrev stored_next : List Bool → Writing FileSink
      stored_next rest =
          acked file total p (sent (stored full u.client.link rest next)) (u.sendpacket + 1)

      stored_bytes :
          (j : ℕ)
          → j < u.place + size
          → copy u.client.link.value u.client.link.place (from next 12) (get16 next 0 - 6) j ≡ p j
      unfolding from
      stored_bytes j h = rw next-size (
          rw ready.same_place (
            copy-extends u.client.link.value (from next 12) p u.place size ready.same_bytes
              (packet-data (u.sendpacket + 1) size (nextmbxcnt u.client.mbx_cnt) (from p u.place)
                (clearmbx zeros))
              j h))

      still_calm :
          (rest : List Bool)
          → (u.client.link.busy ≡ [] → rest ≡ [])
          → ((u.psize - size) % full ≢ 0) ⊎ ((rest ≡ []) ⊎ (ltb (get16 next 0 - 6) full ≡ true))
      still_calm rest same_end = calm_by ready.calm
        where
          calm_by :
              (u.psize % full ≢ 0) ⊎ ((u.client.link.busy ≡ []) ⊎ (u.client.link.complete ≡ true))
              → ((u.psize - size) % full ≢ 0) ⊎ ((rest ≡ []) ⊎ (ltb (get16 next 0 - 6) full ≡ true))
          calm_by (inl odd) = elim (Bool-cases (ltb u.psize full)) [
            | inl few ↦ inr (inr (ground (arith, next-size, few)))
            | inr many ↦
                let whole : u.psize - full ≡ u.psize - size = ground (arith, many) in
                let enough : full ≤ u.psize = ground (arith, many) in
                inl (λ z. odd (mod-eq-sub-mod enough ∙ ap (λ (n : ℕ). n % full) whole ∙ z))
          ]
          calm_by (inr (inl e)) = inr (inl (same_end e))
          calm_by (inr (inr e)) = absurd (cc)

      stored_next-Ready :
          (rest : List Bool)
          → (u.client.link.busy ≡ [] → rest ≡ [])
          → Ready file total p (stored_next rest)
      stored_next-Ready rest same_end = record {
        same_place = omega (arith, next-size, ready.same_place);
        left = ground (arith, ready.left);
        same_packets = omega (arith, ready.same_packets);
        few = λ e. ground (arith, next-size, e, ready.few open_file);
        same_bytes = stored_bytes;
        answered_all = refl;
        good = refl;
        unfinished_end = λ e f. ground (arith, next-size, e, f);
        finished = λ e. ground (arith, next-size, e);
        calm = still_calm rest same_end;
      }

      -- The slave is busy.
      abbrev asked_again : List Bool → Writing FileSink
      asked_again rest = taken_back file total p (sent (passed_over full u.client.link rest))

      some_left : u.psize % full ≢ 0 → u.psize ≢ 0
      some_left odd z = odd (ap (λ (n : ℕ). n % full) z ∙ mod-eq_of_lt some_room)

      same_left : u.psize ≡ u.psize - size + size
      same_left = ground arith

      asked_again-Ready :
          (rest : List Bool) → u.psize % full ≢ 0 → Ready file total p (asked_again rest)
      asked_again-Ready rest odd = record {
        same_place = omega (arith, ready.same_place);
        left = ground (arith, ready.left);
        same_packets = omega (arith, ready.same_packets);
        few = λ e. omega (arith, ready.few open_file);
        same_bytes = λ j h. ready.same_bytes j (omega arith);
        answered_all = refl;
        good = refl;
        unfinished_end = λ e f. absurd (some_left odd (ground (arith, e)));
        finished = λ e. cc;
        calm = inl (λ z. odd (ap (λ (n : ℕ). n % full) same_left ∙ z));
      }

      -- The next round, whatever the slave does with the packet.
      pub record Advance : Type 0 where
        pub after : Writing FileSink
        pub still : Ready file total p after
        pub ran :
            write_packet slave file p (sent (sink full u.client.link next))
            ≡ send_next slave file p after
        pub less : measure file total p after < measure file total p u

      by_response :
          (s : FileSink)
          → sink full u.client.link next ≡ s
          → {v : Writing FileSink × Bool} → write_packet slave file p (sent s) ≡ v
          → write_packet slave file p (sent (sink full u.client.link next)) ≡ v
      by_response s e h = ap (λ (t : FileSink). write_packet slave file p (sent t)) e ∙ h

      stores :
          (rest : List Bool)
          → sink full u.client.link next ≡ stored full u.client.link rest next
          → (u.client.link.busy ≡ [] → rest ≡ [])
          → length rest ≤ length u.client.link.busy
          → Advance
      stores rest e same_end shorter = record {
        after = stored_next rest;
        still = stored_next-Ready rest same_end;
        ran = by_response (stored full u.client.link rest next) e (
            write_packet-ack file total p (sent (stored full u.client.link rest next))
              (u.sendpacket + 1)
              (rw ready.answered_all (ap (λ (n : ℕ). answer 4 (n + 1) ∷ []) ready.same_packets))
              (omega (arith, ready.few open_file, ready.left)) refl);
        less = ground (arith, shorter, sendable);
      }

      must_be_odd :
          {rest : List Bool}
          → (u.psize % full ≢ 0) ⊎ ((u.client.link.busy ≡ []) ⊎ (u.client.link.complete ≡ true))
          → u.client.link.busy ≡ true ∷ rest
          → u.psize % full ≢ 0
      must_be_odd (inl odd) e = odd
      must_be_odd (inr (inl idle)) e = absurd (cc)
      must_be_odd (inr (inr done)) e = absurd (cc)

      asks_again :
          (rest : List Bool)
          → sink full u.client.link next ≡ passed_over full u.client.link rest
          → u.client.link.busy ≡ true ∷ rest
          → Advance
      asks_again rest e is_busy =
          let odd = must_be_odd ready.calm is_busy in
          record {
            after = asked_again rest;
            still = asked_again-Ready rest odd;
            ran = by_response (passed_over full u.client.link rest) e (
                write_packet-busy file total p (sent (passed_over full u.client.link rest))
                  (rw ready.answered_all refl) (omega arith));
            less = ground (arith, ap (length {0}) is_busy);
          }

      pub advance : (busy : List Bool) → u.client.link.busy ≡ busy → Advance
      advance [] e =
          stores []
            (sink-next
              ∙ ap (λ (b : List Bool). take_packet full u.client.link b next) e
              ∙ accepted [])
            (λ _. refl) (omega arith)
      advance (true ∷ rest) e =
          asks_again rest
            (sink-next ∙ ap (λ (b : List Bool). take_packet full u.client.link b next) e) e
      advance (false ∷ rest) e =
          stores rest
            (sink-next
              ∙ ap (λ (b : List Bool). take_packet full u.client.link b next) e
              ∙ accepted rest)
            (λ z. cc) (omega (arith, ap (length {0}) e))
