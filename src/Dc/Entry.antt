-- ===== src/Dc/Entry.antt =====
-- The entry port of a slave: the active port with the lowest time stamp.
use mathlib.Core.Path.{subst}
use ether_cat_master.Prelude.{
  ℕ, ◌<◌, ◌≡◌, refl, ap, ◌∙◌, true, arith, List, [], ◌∷◌, Bool-cases, inl, inr, ◌⊎◌,
}
use ether_cat_master.Prelude.Int.{ℤ, ◌≤ℤ◌, ltb_ℤ}
use ether_cat_master.Dc.{Slave}
use ether_cat_master.Dc.Ports.{has_port, porttime}
use ether_cat_master.Dc.Configure.{port_list, listed, lowest, lower, entryport_of, entry_of}
use ether_cat_master.Dc.Ring.{at_ports}

-- The listed ports are active, and the times are theirs.
abbrev IsTimed : Slave → ℕ × ℤ → Type 0
IsTimed s p = (has_port s.activeports p.0 ≡ true) × (p.1 ≡ porttime s p.0)

abbrev AllTimed : Slave → List (ℕ × ℤ) → Type 0
AllTimed s [] = Unit
AllTimed s (p ∷ rest) = IsTimed s p × AllTimed s rest

abbrev IsListed : ℕ → List (ℕ × ℤ) → Type 0
IsListed port [] = ⊥
IsListed port (p ∷ rest) = (p.0 ≡ port) ⊎ IsListed port rest

lower_lem :
    (best other : ℕ × ℤ) → ((lower best other).1 ≤ℤ best.1) × ((lower best other).1 ≤ℤ other.1)
lower_lem best other = ground arith

lower-IsTimed :
    (s : Slave) (best other : ℕ × ℤ)
    → IsTimed s best
    → IsTimed s other
    → IsTimed s (lower best other)
lower-IsTimed s best other h h' = elim (Bool-cases (ltb_ℤ other.1 best.1)) [
  | inl e ↦ rw e h'
  | inr e ↦ rw e h
]

lowest-IsTimed :
    (s : Slave) (best : ℕ × ℤ) (rest : List (ℕ × ℤ))
    → IsTimed s best
    → AllTimed s rest
    → IsTimed s (lowest best rest)
unfolding lowest
lowest-IsTimed s best [] h all = h
lowest-IsTimed s best (p ∷ rest) h (timed, all) =
    lowest-IsTimed s (lower best p) rest (lower-IsTimed s best p h timed) all

-- No time in front of the lowest one is lower.
lowest_le : (best : ℕ × ℤ) (rest : List (ℕ × ℤ)) → (lowest best rest).1 ≤ℤ best.1
unfolding lowest
lowest_le best [] = omega arith
lowest_le best (p ∷ rest) = omega (arith, lowest_le (lower best p) rest, (lower_lem best p).0)

lowest_least :
    (s : Slave) (best : ℕ × ℤ) (rest : List (ℕ × ℤ)) (port : ℕ)
    → AllTimed s rest
    → IsListed port rest
    → (lowest best rest).1 ≤ℤ porttime s port
unfolding lowest
lowest_least s best [] port all h = absurd h
lowest_least s best (p ∷ rest) port (timed, all) (inl same) =
    let time : p.1 ≡ porttime s port = timed.1 ∙ ap (porttime s) same in
    subst (λ (t : ℤ). (lowest (lower best p) rest).1 ≤ℤ t) time
      (omega (arith, lowest_le (lower best p) rest, (lower_lem best p).1))
lowest_least s best (p ∷ rest) port (timed, all) (inr later) =
    lowest_least s (lower best p) rest port all later

entry_of_lem :
    (stale : ℕ) (s : Slave) (ports : List (ℕ × ℤ)) (port : ℕ)
    → AllTimed s ports
    → IsListed port ports
    → (has_port s.activeports (entry_of stale ports) ≡ true)
      × (porttime s (entry_of stale ports) ≤ℤ porttime s port)
entry_of_lem stale s [] port all h = absurd h
entry_of_lem stale s (p ∷ rest) port (timed, all) h =
    let (active, time) = lowest-IsTimed s p rest timed all in
    (active, subst (λ (t : ℤ). t ≤ℤ porttime s port) time (least h))
  where
    least : IsListed port (p ∷ rest) → (lowest p rest).1 ≤ℤ porttime s port
    least (inl same) =
        subst (λ (t : ℤ). (lowest p rest).1 ≤ℤ t) (timed.1 ∙ ap (porttime s) same)
          (lowest_le p rest)
    least (inr later) = lowest_least s p rest port all later

module _ (s : Slave) where
  listed-AllTimed :
      (port : ℕ) (rest : List (ℕ × ℤ)) → AllTimed s rest → AllTimed s (listed s port rest)
  listed-AllTimed port rest all = elim (Bool-cases (has_port s.activeports port)) [
    | inl e ↦ rw e ((e, refl), all)
    | inr e ↦ rw e all
  ]

  listed_here :
      (port : ℕ) (rest : List (ℕ × ℤ))
      → has_port s.activeports port ≡ true
      → IsListed port (listed s port rest)
  listed_here port rest e = rw e (inl refl)

  listed_later :
      (port other : ℕ) (rest : List (ℕ × ℤ))
      → IsListed port rest
      → IsListed port (listed s other rest)
  listed_later port other rest h = elim (Bool-cases (has_port s.activeports other)) [
    | inl e ↦ rw e (inr h)
    | inr e ↦ rw e h
  ]

  -- The list of the code, from its end.
  abbrev from2 : List (ℕ × ℤ)
  from2 = listed s 2 []

  abbrev from1 : List (ℕ × ℤ)
  from1 = listed s 1 from2

  abbrev from3 : List (ℕ × ℤ)
  from3 = listed s 3 from1

  all_timed : AllTimed s (listed s 0 from3)
  all_timed =
      listed-AllTimed 0 from3
        (listed-AllTimed 3 from1 (listed-AllTimed 1 from2 (listed-AllTimed 2 [] tt)))

  all_listed :
      (port : ℕ) → port < 4 → has_port s.activeports port ≡ true → IsListed port (listed s 0 from3)
  all_listed =
      at_ports (λ port. has_port s.activeports port ≡ true → IsListed port (listed s 0 from3))
        (listed_here 0 from3)
        (λ e. listed_later 1 0 from3 (listed_later 1 3 from1 (listed_here 1 from2 e)))
        (λ e.
          listed_later 2 0 from3
            (listed_later 2 3 from1 (listed_later 2 1 from2 (listed_here 2 [] e))))
        (λ e. listed_later 3 0 from3 (listed_here 3 from1 e))

-- The entry port of a slave with an active port is active, and no active port has an earlier time stamp.
pub entryport_of_lem :
    (stale : ℕ) (s : Slave) (port : ℕ)
    → port < 4
    → has_port s.activeports port ≡ true
    → (has_port s.activeports (entryport_of stale s) ≡ true)
      × (porttime s (entryport_of stale s) ≤ℤ porttime s port)
unfolding entryport_of port_list
entryport_of_lem stale s port h active =
    entry_of_lem stale s (port_list s) port (all_timed s) (all_listed s port h active)
