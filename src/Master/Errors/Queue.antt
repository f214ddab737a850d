-- ===== src/Master/Errors/Queue.antt =====
-- The error list as a queue: what it holds, pushing and popping.
use ether_cat_master.Prelude.{
  ℕ, suc, ◌+◌, ◌-◌, ◌<◌, ◌≡◌, ◌≢◌, refl, sym, ap, ◌∙◌, leb, ltb, ◌==◌, if◌then◌else◌, arith, List,
  [], ◌∷◌, ◌++◌, length, drop, true, false, Bool-cases, inl, inr,
}
use ether_cat_master.Memory.{Array, update}
use ether_cat_master.Memory.Circle.{
  next, place, place_eq, window, length-window, window-push, window-shift, window_frame,
}
use ether_cat_master.Master.Errors.{Error, ErrorRing, pusherror, poperror, iserror}

-- How many errors a ring holds, and which, the oldest first.
abbrev held : ErrorRing → ℕ
held e = if leb e.tail e.head then e.head - e.tail else e.head + 65 - e.tail

abbrev pub pending : ErrorRing → List Error
pending e = window 65 e.errors e.tail (held e)

abbrev pub InRange : ErrorRing → Type 0
InRange e = (e.head < 65) × (e.tail < 65)

-- A queue that keeps the last `bound` values.
abbrev pub remember : ℕ → List Error → Error → List Error
remember bound xs x = (if ltb (length xs) bound then xs else drop 1 xs) ++ (x ∷ [])

abbrev pub signalled : Error → Error
signalled x = record x { signal = true }

window-eq :
    {a b : Array Error} {t u m n : ℕ} → a ≡ b → t ≡ u → m ≡ n → window 65 a t m ≡ window 65 b u n
window-eq p q r = cc

module _ (e : ErrorRing) (ok : InRange e) (x : Error) where
  head-place : e.head ≡ place 65 e.tail (held e)
  head-place = ground (arith, place_eq 65 e.tail (held e))

  written : (pusherror e x).errors ≡ update e.errors (place 65 e.tail (held e)) (signalled x)
  unfolding pusherror
  written = ap (λ (h : ℕ). update e.errors h (signalled x)) head-place

  pusherror_room :
      held e < 64 → ((pusherror e x).tail ≡ e.tail) × (held (pusherror e x) ≡ suc (held e))
  unfolding pusherror
  pusherror_room room = (ground arith, ground arith)

  pusherror_full :
      held e ≡ 64 → ((pusherror e x).tail ≡ next 65 e.tail) × (held (pusherror e x) ≡ 64)
  unfolding pusherror
  pusherror_full full = (ground arith, ground arith)

  pusherror-pending_room : held e < 64 → pending (pusherror e x) ≡ pending e ++ (signalled x ∷ [])
  pusherror-pending_room room =
      window-eq written (pusherror_room room).0 (pusherror_room room).1
      ∙ window-push 65 e.errors e.tail (held e) (signalled x) ok.1 (omega arith)

  pusherror-pending_full :
      held e ≡ 64 → pending (pusherror e x) ≡ drop 1 (pending e) ++ (signalled x ∷ [])
  pusherror-pending_full full =
      window-eq (written ∙ ap (λ (n : ℕ). update e.errors (place 65 e.tail n) (signalled x)) full)
        (pusherror_full full).0 (pusherror_full full).1
      ∙ window-shift 65 e.errors e.tail 63 (signalled x) ok.1 (omega arith)
      ∙ ap (λ (n : ℕ). drop 1 (window 65 e.errors e.tail n) ++ (signalled x ∷ [])) (sym full)

  pusherror-InRange : InRange (pusherror e x)
  unfolding pusherror
  pusherror-InRange = (ground arith, ground arith)

  -- Whatever the error list holds, an error that is pushed comes last in it, with its signal set. The
  -- errors before stay in their order, less the oldest where 64 were there; the indices stay in range.
  pub pusherror-pending :
      InRange (pusherror e x) × (pending (pusherror e x) ≡ remember 64 (pending e) (signalled x))
  pusherror-pending = (
    pusherror-InRange,
    elim (Bool-cases (ltb (length (pending e)) 64)) [
      | inl room ↦
          rw room
            (pusherror-pending_room (ground (arith, length-window 65 e.errors e.tail (held e))))
      | inr full ↦
          rw full
            (pusherror-pending_full (ground (arith, length-window 65 e.errors e.tail (held e))))
    ],
  )

module _ (e : ErrorRing) (ok : InRange e) where
  -- The ring that a successful pop leaves.
  abbrev popped : ErrorRing
  popped = (poperror e).0

  poperror_some :
      (e.head == e.tail) ≡ false → (popped.tail ≡ next 65 e.tail) × (held e ≡ suc (held popped))
  unfolding poperror
  poperror_some h = (ground arith, ground arith)

  behind_tail : (k : ℕ) → k < 64 → place 65 (next 65 e.tail) k ≢ e.tail
  behind_tail k h = ground (arith, place_eq 65 (next 65 e.tail) k)

  -- The error that is read loses its signal where it stands.
  abbrev read_error : Error
  read_error = record (e.errors e.tail) { signal = false }

  cleared : popped.errors ≡ update e.errors e.tail read_error
  unfolding poperror
  cleared = ground arith

  pending-popped :
      (e.head == e.tail) ≡ false
      → pending popped ≡ window 65 e.errors (next 65 e.tail) (held popped)
  unfolding poperror
  pending-popped h =
      window-eq cleared (poperror_some h).0 refl
      ∙ window_frame 65 e.errors (next 65 e.tail) (held popped) e.tail read_error
          (λ k l. behind_tail k (ground arith))

  poperror_none :
      (e.head == e.tail) ≡ true
      → poperror e ≡ (
        record e { errors = update e.errors e.tail read_error; ecaterror = false },
        e.errors e.tail,
        false,
      )
  unfolding poperror
  poperror_none h = ground arith

  poperror_there :
      (e.head == e.tail) ≡ false
      → (popped.head < 65)
        × (popped.tail < 65)
        × ((poperror e).1 ≡ e.errors e.tail)
        × ((poperror e).2 ≡ true)
  unfolding poperror
  poperror_there h = ground arith

  -- What is popped is the oldest error, and the others stay; from an empty list nothing is popped and
  -- the error flag of the context goes off. `iserror` says before which of the two it will be.
  pub poperror-pending :
      let (q, x, there) = poperror e in
      (pending e ≡ (if there then x ∷ pending q else []))
      × (there ≡ iserror e)
      × InRange q
      × (there ≡ false → (q.ecaterror ≡ false) × (pending q ≡ []))
  unfolding iserror window
  poperror-pending = elim (Bool-cases (e.head == e.tail)) [
    | inl none ↦
        let empty : held e ≡ 0 = ground arith in
        let nothing : pending e ≡ [] = ap (λ (n : ℕ). window 65 e.errors e.tail n) empty in
        rw (poperror_none none, none)
          (
            nothing,
            refl,
            ok,
            λ h. (
              refl,
              ap (λ (n : ℕ). window 65 (update e.errors e.tail read_error) e.tail n) empty,
            ),
          )
    | inr some ↦
        let there : (poperror e).2 ≡ true = (poperror_there some).3 in
        rw (there, some)
          (
            ap (λ (n : ℕ). window 65 e.errors e.tail n) (poperror_some some).1
                ∙ sym (λ i. (poperror_there some).2 i ∷ pending-popped some i),
            refl,
            ((poperror_there some).0, (poperror_there some).1),
            λ h. absurd (ground (arith, h)),
          )
  ]
