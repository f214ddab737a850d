-- ===== src/Eoe/Wire.antt =====
-- The fragments that `ecx_EOEsend` puts on a wire.
use ether_cat_master.Prelude.{
  ℕ, zero, suc, ◌+◌, ◌-◌, ◌*◌, ◌%◌, ◌<◌, ◌≡◌, refl, sym, ltb, true, false, if◌then◌else◌, arith,
  Bool-cases, inl, inr, ◌∙◌, List, [], ◌∷◌, ◌++◌,
}
use mathlib.Core.List.{append_assoc}
use ether_cat_master.Prelude.Int.{pos}
use ether_cat_master.Memory.{Buffer, zeros}
use ether_cat_master.Mailbox.{Mailboxes, Reception, mailbox, nothing, returns, nextmbxcnt, clearmbx}
use ether_cat_master.Eoe.Send.{
  Sender, Outgoing, fragment_size, is_last, put_fragment, send_fragment, send_fragments,
}
use ether_cat_master.Eoe.InStep.{Stands, Stands-next}

-- A slave that gives back the mailboxes that it gets, in order.
abbrev pub take_first : List Buffer → List Buffer × Reception
take_first [] = ([], nothing 0)
take_first (mbx ∷ rest) = (rest, mailbox 0 mbx)

abbrev pub wire : Mailboxes (List Buffer)
wire = record {
  getmbx = λ sent. (sent, zeros);
  dropmbx = λ sent. sent;
  mbxsend = λ sent mbx. (sent ++ (mbx ∷ []), 1);
  mbxreceive = take_first;
}

-- The fragments from an offset on.
unfoldable pub fragments : ℕ → Outgoing → ℕ → ℕ → ℕ → ℕ → List Buffer
fragments zero o offset fragment frame cnt = []
fragments (suc rounds) o offset fragment frame cnt =
    let now = put_fragment o offset fragment frame (nextmbxcnt cnt) (clearmbx zeros) in
    let rest =
      fragments rounds o (offset + fragment_size o offset) ((fragment + 1) % 256) frame
        (nextmbxcnt cnt) in
    now ∷ (if is_last o offset then [] else rest)

-- The rounds that the rest of a frame takes, at most.
abbrev pub Enough : ℕ → Outgoing → ℕ → Type 0
Enough rounds o offset = o.psize - offset < 32 * rounds

abbrev after : Outgoing → ℕ → ℕ → Sender (List Buffer) → Sender (List Buffer)
after o offset fragment s = (send_fragment wire o offset fragment s).0

abbrev pub SameFrame : ℕ → ℕ → Sender (List Buffer) → Type 0
SameFrame fragment frame s =
    frame ≡ (if ltb 0 fragment then s.txframeno else (s.txframeno + 1) % 256)

SameFrame-next :
    (o : Outgoing) (offset fragment frame : ℕ) (s : Sender (List Buffer))
    → Stands o offset fragment
    → SameFrame fragment frame s
    → SameFrame ((fragment + 1) % 256) frame (after o offset fragment s)
unfolding send_fragment
SameFrame-next o offset fragment frame s stands same =
    ground (arith, stands.not_ahead, stands.within_frame, stands.small)

abbrev pub Sends : ℕ → Outgoing → ℕ → ℕ → ℕ → Sender (List Buffer) → Type 0
Sends rounds o offset fragment frame s =
    (s' : Sender (List Buffer)) × (send_fragments wire rounds o offset fragment s
      ≡ returns (s', pos 1))
    × (s'.link ≡ s.link ++ fragments rounds o offset fragment frame s.mbx_cnt)

Sends-last :
    (rounds : ℕ) (o : Outgoing) (offset fragment frame : ℕ) (s : Sender (List Buffer))
    → is_last o offset ≡ true
    → SameFrame fragment frame s
    → Sends (suc rounds) o offset fragment frame s
unfolding send_fragments send_fragment fragments
Sends-last rounds o offset fragment frame s e same = rw (e, sym same) (_, refl, refl)

Sends-more :
    (rounds : ℕ) (o : Outgoing) (offset fragment frame : ℕ) (s : Sender (List Buffer))
    → is_last o offset ≡ false
    → SameFrame fragment frame s
    → Sends rounds o
        (offset + fragment_size o offset)
        ((fragment + 1) % 256)
        frame
        (after o offset fragment s)
    → Sends (suc rounds) o offset fragment frame s
unfolding send_fragments send_fragment fragments
Sends-more rounds o offset fragment frame s e same (s', ran, linked) = rw e (
  s',
  ran,
  linked
      ∙ rw (sym same) (
          append_assoc s.link
            (put_fragment o offset fragment frame (nextmbxcnt s.mbx_cnt) (clearmbx zeros) ∷ [])
            (fragments rounds o (offset + fragment_size o offset) ((fragment + 1) % 256) frame
              (nextmbxcnt s.mbx_cnt))),
)

-- What the sender has put on the wire when it returns.
pub send_fragments-wire :
    (rounds : ℕ) (o : Outgoing) (offset fragment frame : ℕ) (s : Sender (List Buffer))
    → Stands o offset fragment
    → Enough rounds o offset
    → SameFrame fragment frame s
    → Sends rounds o offset fragment frame s
send_fragments-wire zero o offset fragment frame s stands enough same = absurd (omega arith)
send_fragments-wire (suc rounds) o offset fragment frame s stands enough same =
    elim (Bool-cases (is_last o offset)) [
      | inl e ↦ Sends-last rounds o offset fragment frame s e same
      | inr e ↦
          let (stands', size_bound) = Stands-next o offset fragment stands e in
          Sends-more rounds o offset fragment frame s e same (
            send_fragments-wire rounds o (offset + fragment_size o offset) ((fragment + 1) % 256)
              frame (after o offset fragment s) stands' (omega (arith, stands'.within_frame))
              (SameFrame-next o offset fragment frame s stands same))
    ]
