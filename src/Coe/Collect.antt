-- ===== src/Coe/Collect.antt =====
-- The segments that `ecx_SDOread` gets from a slave that gives an object out.
use ether_cat_master.Prelude.{
  ℕ, zero, suc, ◌+◌, ◌-◌, ◌*◌, ◌/◌, ◌%◌, ◌<◌, ◌≤◌, ◌≡◌, refl, Bool, true, false, arith, [], ◌∷◌,
  inl, inr, ap, ◌∙◌, Bool-cases,
}
use ether_cat_master.Prelude.Int.{pos}
use ether_cat_master.Memory.{Buffer, get16, copy, from, zeros, copy-extends}
use ether_cat_master.Mailbox.{mailbox, nextmbxcnt, drop_held, Run, returns}
use ether_cat_master.Master.Errors.{ErrorRing}
use ether_cat_master.Coe.{Access, toggled}
use ether_cat_master.Coe.Delivery.{IsBit}
use ether_cat_master.Coe.Source.{
  Source, next_part, is_rest, segment_response, give_segment, source, next_reply, from_source,
}
use ether_cat_master.Coe.Steps.{read_segments-goes_on, read_segments-ends}
use ether_cat_master.Coe.Read.{
  Upload, Segments, segment_request, is_segment, last_segment, segment_size, last_size,
  take_segment, ask_segment, read_segments, finish,
}

module _ (value : Buffer) (size room : ℕ) where
  abbrev pub taken : Source → Source
  taken s = record s { replies = [] }

  pub answered :
      (s : Source) (r : Buffer)
      → s.replies ≡ r ∷ []
      → next_reply value size room s s.replies ≡ (taken s, mailbox 0 r)
  answered s r e = ap (next_reply value size room s) e

  pub kept : (held : Bool) (s : Source) → drop_held (from_source value size room) held s ≡ s
  kept true s = refl
  kept false s = refl

  -- What the master reads in a segment.
  module _ (place toggle : ℕ) (mbx : Buffer) where
    abbrev answer : Buffer
    answer = segment_response value size room place toggle mbx

    module _ (bit : IsBit toggle) (roomy : 16 ≤ room) (small : room < 60000) where
      answer-fits : is_segment answer ≡ true
      unfolding segment_response get16
      answer-fits = ground arith

      answer-last : last_segment answer ≡ is_rest value size room place
      unfolding segment_response
      answer-last = ground arith

      answer-size :
          is_rest value size room place ≡ false
          → segment_size answer ≡ next_part value size room place
      unfolding segment_response get16
      answer-size more = ground arith

      answer-last_size :
          is_rest value size room place ≡ true → last_size answer ≡ next_part value size room place
      unfolding segment_response get16
      answer-last_size last = ground arith

      answer-data :
          (j : ℕ) → j < next_part value size room place → answer (9 + j) ≡ value (place + j)
      unfolding segment_response from
      answer-data j h = ground arith

  module _ (a : Access) (toggle cnt : ℕ) (old : Buffer) where
    abbrev asking : Buffer
    asking = segment_request a toggle cnt old

    asking-command : IsBit toggle → (asking 8 / 32 ≡ 3) × (asking 8 / 16 % 2 * 16 ≡ toggle)
    unfolding segment_request
    asking-command bit = ground arith

    source-segment :
        (s : Source)
        → IsBit toggle
        → s.toggle ≡ toggle
        → source value size room s asking ≡ give_segment value size room s asking
    unfolding source
    source-segment s bit same = ground (arith, asking-command bit)

  -- Reader and slave in the middle of an object. The bytes behind the object are those of `old`.
  pub record InStep (before : Buffer) (g : Segments Source) : Type 0 where
    pub same_place : g.client.link.place ≡ g.hp
    pub counted : g.psize ≡ g.hp
    pub in_object : g.hp ≤ size
    pub same_toggle : g.client.link.toggle ≡ g.toggle
    pub bit : IsBit g.toggle
    pub answered_all : g.client.link.replies ≡ []
    pub same_bytes : (j : ℕ) → j < g.hp → g.value j ≡ value j
    pub untouched : (j : ℕ) → size ≤ j → g.value j ≡ before j

  module _ (a : Access) (before : Buffer) (g : Segments Source) where
    abbrev request : Buffer
    request = segment_request a g.toggle (nextmbxcnt g.client.mbx_cnt) zeros

    abbrev got : Buffer
    got = segment_response value size room g.client.link.place g.client.link.toggle request

    abbrev part : ℕ
    part = next_part value size room g.hp

    abbrev answered_to : Segments Source
    answered_to = record g {
      client = record g.client {
        link = taken (give_segment value size room g.client.link request);
        mbx_cnt = nextmbxcnt g.client.mbx_cnt;
      };
      toggle = toggled g.toggle;
    }

    module _ (step : InStep before g) (roomy : 16 ≤ room) (small : room < 60000) where
      source-request :
          source value size room g.client.link request
          ≡ give_segment value size room g.client.link request
      source-request =
          source-segment a g.toggle (nextmbxcnt g.client.mbx_cnt) zeros g.client.link step.bit
            step.same_toggle

      request-reply : (source value size room g.client.link request).replies ≡ got ∷ []
      request-reply = rw source-request (rw step.answered_all refl)

      ask_segment-source :
          ask_segment (from_source value size room) a g.client.link zeros g
          ≡ take_segment (from_source value size room) a (mailbox 0 got) answered_to
      unfolding ask_segment
      ask_segment-source = rw (kept g.held (source value size room g.client.link request)) (
          rw (answered (source value size room g.client.link request) got request-reply)
            (rw source-request refl))

      abbrev collected : Segments Source
      collected = record answered_to {
        wkc = pos 1;
        held = true;
        psize = g.psize + part;
        value = copy g.value g.hp (from got 9) part;
      }

      IsBit-link : IsBit g.client.link.toggle
      IsBit-link = ground (arith, step.same_toggle, step.bit)

      same_part : next_part value size room g.client.link.place ≡ part
      same_part = ap (next_part value size room) step.same_place

      same_rest : is_rest value size room g.client.link.place ≡ is_rest value size room g.hp
      same_rest = ap (is_rest value size room) step.same_place

      take_segment-more :
          is_rest value size room g.hp ≡ false
          → take_segment (from_source value size room) a (mailbox 0 got) answered_to
            ≡ (record collected { hp = g.hp + part }, true)
      unfolding take_segment
      take_segment-more more =
          let n =
            answer-size g.client.link.place g.client.link.toggle request IsBit-link roomy small
              (same_rest ∙ more)
            ∙ same_part in
          rw (answer-fits g.client.link.place g.client.link.toggle request IsBit-link roomy small) (
            rw
              (answer-last g.client.link.place g.client.link.toggle request IsBit-link roomy small
                ∙ same_rest
                ∙ more)
              (rw n refl))

      take_segment-last :
          is_rest value size room g.hp ≡ true
          → take_segment (from_source value size room) a (mailbox 0 got) answered_to
            ≡ (collected, false)
      unfolding take_segment
      take_segment-last last =
          let n =
            answer-last_size g.client.link.place g.client.link.toggle request IsBit-link roomy small
              (same_rest ∙ last)
            ∙ same_part in
          rw (answer-fits g.client.link.place g.client.link.toggle request IsBit-link roomy small) (
            rw
              (answer-last g.client.link.place g.client.link.toggle request IsBit-link roomy small
                ∙ same_rest
                ∙ last)
              (rw n refl))

      in_step_bytes : (j : ℕ) → j < g.hp + part → copy g.value g.hp (from got 9) part j ≡ value j
      unfolding from
      in_step_bytes = copy-extends g.value (from got 9) value g.hp part step.same_bytes (λ j h.
          answer-data g.client.link.place g.client.link.toggle request IsBit-link roomy small j
            (omega (arith, h, same_part))
          ∙ ap (λ (n : ℕ). value (n + j)) step.same_place)

      part_fits : g.hp + part ≤ size
      part_fits = ground (arith, step.in_object)

      in_step_untouched : (j : ℕ) → size ≤ j → copy g.value g.hp (from got 9) part j ≡ before j
      unfolding copy
      in_step_untouched j h = ground (arith, step.untouched j h, part_fits)

      collected-InStep : InStep before (record collected { hp = g.hp + part })
      collected-InStep = record {
        same_place = omega (arith, same_part, step.same_place);
        counted = omega (arith, step.counted);
        in_object = part_fits;
        same_toggle = ground (arith, step.same_toggle, step.bit);
        bit = ground (arith, step.bit);
        answered_all = refl;
        same_bytes = in_step_bytes;
        untouched = in_step_untouched;
      }

  -- The object has been read, with no new error.
  pub record Collected (before : Buffer) (elist : ErrorRing) (u : Upload Source) : Type 0 where
    pub wkc : u.wkc ≡ pos 1
    pub psize : u.psize ≡ size
    pub bytes : (j : ℕ) → j < size → u.value j ≡ value j
    pub untouched : (j : ℕ) → size ≤ j → u.value j ≡ before j
    pub no_error : u.client.elist ≡ elist

  abbrev pub Collects : Buffer → ErrorRing → Run (Upload Source) → Type 0
  Collects before elist run = (u : Upload Source) × (run ≡ returns u) × Collected before elist u

  module _ (a : Access) (before : Buffer) (roomy : 16 ≤ room) (small : room < 60000) where
    last-Collected :
        (g : Segments Source) (step : InStep before g)
        → is_rest value size room g.hp ≡ true
        → Collected before g.client.elist
            (finish (from_source value size room) a (collected a before g step roomy small))
    last-Collected g step last =
        let all : g.hp + part a before g ≡ size = ground (arith, step.in_object, last) in
        record {
          wkc = refl;
          psize = omega (arith, step.counted, all);
          bytes = λ j h. in_step_bytes a before g step roomy small j (omega (arith, all));
          untouched = in_step_untouched a before g step roomy small;
          no_error = refl;
        }

    pub read_segments-Collects :
        (rounds : ℕ) (g : Segments Source)
        → InStep before g
        → size - g.hp < 7 * rounds
        → Collects before g.client.elist (read_segments (from_source value size room) a rounds g)
    read_segments-Collects zero g step enough = absurd (omega arith)
    read_segments-Collects (suc rounds) g step enough =
        let asked = ask_segment-source a before g step roomy small in
        elim (Bool-cases (is_rest value size room g.hp)) [
          | inl last ↦
              let ran = asked ∙ take_segment-last a before g step roomy small last in
              (
                _,
                read_segments-ends (from_source value size room) a rounds g zeros refl
                      (ap (λ (t : Segments Source × Bool). t.1) ran)
                    ∙ ap
                        (λ (t : Segments Source × Bool).
                          returns (finish (from_source value size room) a t.0))
                        ran,
                last-Collected g step last,
              )
          | inr more ↦
              let ran = asked ∙ take_segment-more a before g step roomy small more in
              let next = record (collected a before g step roomy small) {
                hp = g.hp + part a before g;
              } in
              let (u, rest, all) =
                read_segments-Collects rounds next (collected-InStep a before g step roomy small)
                  (ground (arith, more)) in
              (
                u,
                read_segments-goes_on (from_source value size room) a rounds g zeros refl
                      (ap (λ (t : Segments Source × Bool). t.1) ran)
                    ∙ ap
                        (λ (t : Segments Source × Bool).
                          read_segments (from_source value size room) a rounds t.0)
                        ran
                    ∙ rest,
                all,
              )
        ]
