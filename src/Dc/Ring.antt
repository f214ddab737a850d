-- ===== src/Dc/Ring.antt =====
-- The ports of a slave in the order in which a frame passes them: 0, 3, 1, 2, and 0 again.
use ether_cat_master.Prelude.{
  ℕ, zero, suc, ◌-◌, ◌/◌, ◌%◌, ◌<◌, ◌≡◌, refl, ◌==◌, false, if◌then◌else◌, arith, List, [], ◌∷◌,
  ◌≢◌, inl, inr, Bool-cases,
}
use ether_cat_master.Dc.Ports.{has_port, prevport, take_port}

abbrev pub port_before : ℕ → ℕ
port_before port = if port == 0 then 2 else if port == 2 then 1 else if port == 1 then 3 else 0

-- Back along the ring to the next active port, in a number of steps.
pub walk_back : ℕ → ℕ → ℕ → ℕ
walk_back zero aport port = port
walk_back (suc steps) aport port =
    let rest = walk_back steps aport (port_before port) in
    if has_port aport (port_before port) then port_before port else rest

pub at_ports : (P : ℕ → Type 0) → P 0 → P 1 → P 2 → P 3 → (port : ℕ) → port < 4 → P port
at_ports P p0 p1 p2 p3 zero h = p0
at_ports P p0 p1 p2 p3 (suc zero) h = p1
at_ports P p0 p1 p2 p3 (suc (suc zero)) h = p2
at_ports P p0 p1 p2 p3 (suc (suc (suc zero))) h = p3
at_ports P p0 p1 p2 p3 (suc (suc (suc (suc n)))) h = absurd (omega arith)

-- `ecx_prevport` goes back along the ring to the first active port; when no other port is active that is
-- the port itself.
pub prevport-walk_back : (aport port : ℕ) → port < 4 → prevport aport port ≡ walk_back 4 aport port
unfolding prevport walk_back
prevport-walk_back aport =
    at_ports (λ port. prevport aport port ≡ walk_back 4 aport port) (ground arith) (ground arith)
      (ground arith) (ground arith)

-- The open ports in the order in which children are connected.
abbrev with_port : ℕ → ℕ → List ℕ → List ℕ
with_port b port ports = if has_port b port then port ∷ ports else ports

abbrev pub open_ports : ℕ → List ℕ
open_ports b = with_port b 3 (with_port b 1 (with_port b 2 (with_port b 0 [])))

-- A port that is taken is gone, and the others stay as they are.
without3 :
    (b : ℕ)
    → b / 8 % 2 ≡ 1
    → (b % 16 ≢ 0)
      × ((b - 8) / 8 % 2 ≡ 0)
      × ((b - 8) / 2 % 2 ≡ b / 2 % 2)
      × ((b - 8) / 4 % 2 ≡ b / 4 % 2)
      × ((b - 8) / 1 % 2 ≡ b / 1 % 2)
without3 b h = (omega arith, omega arith, omega arith, omega arith, omega arith)

without1 :
    (b : ℕ)
    → b / 2 % 2 ≡ 1
    → (b % 16 ≢ 0)
      × ((b - 2) / 8 % 2 ≡ b / 8 % 2)
      × ((b - 2) / 2 % 2 ≡ 0)
      × ((b - 2) / 4 % 2 ≡ b / 4 % 2)
      × ((b - 2) / 1 % 2 ≡ b / 1 % 2)
without1 b h = (omega arith, omega arith, omega arith, omega arith, omega arith)

without2 :
    (b : ℕ)
    → b / 4 % 2 ≡ 1
    → (b % 16 ≢ 0)
      × ((b - 4) / 8 % 2 ≡ b / 8 % 2)
      × ((b - 4) / 2 % 2 ≡ b / 2 % 2)
      × ((b - 4) / 4 % 2 ≡ 0)
      × ((b - 4) / 1 % 2 ≡ b / 1 % 2)
without2 b h = (omega arith, omega arith, omega arith, omega arith, omega arith)

without0 :
    (b : ℕ)
    → b / 1 % 2 ≡ 1
    → (b % 16 ≢ 0)
      × ((b - 1) / 8 % 2 ≡ b / 8 % 2)
      × ((b - 1) / 2 % 2 ≡ b / 2 % 2)
      × ((b - 1) / 4 % 2 ≡ b / 4 % 2)
      × ((b - 1) / 1 % 2 ≡ 0)
without0 b h = (omega arith, omega arith, omega arith, omega arith, omega arith)

none_open :
    (b : ℕ) → (b / 8 % 2 ≡ 0) × (b / 2 % 2 ≡ 0) × (b / 4 % 2 ≡ 0) × (b / 1 % 2 ≡ 0) → b % 16 ≡ 0
none_open b h = omega arith

some_open : (b : ℕ) → b % 16 ≢ 0 → (b % 16 == 0) ≡ false
some_open b h = ground arith

takes_first :
    (b : ℕ)
    → open_ports b ≡ (if b % 16 == 0 then [] else (take_port b).0 ∷ open_ports (take_port b).1)
unfolding take_port
takes_first b = elim (Bool-cases (b / 8 % 2 == 1)) [
  | inl e3 ↦
      let (some, a, b1, b2, b0) = without3 b (ground arith) in
      rw (e3, some_open b some, a, b1, b2, b0) refl
  | inr e3 ↦ elim (Bool-cases (b / 2 % 2 == 1)) [
    | inl e1 ↦
        let (some, b3, a, b2, b0) = without1 b (ground arith) in
        rw (e3, e1, some_open b some, b3, a, b2, b0, e3) refl
    | inr e1 ↦ elim (Bool-cases (b / 4 % 2 == 1)) [
      | inl e2 ↦
          let (some, b3, b1, a, b0) = without2 b (ground arith) in
          rw (e3, e1, e2, some_open b some, b3, b1, a, b0, e3, e1) refl
      | inr e2 ↦ elim (Bool-cases (b / 1 % 2 == 1)) [
        | inl e0 ↦
            let (some, b3, b1, b2, a) = without0 b (ground arith) in
            rw (e3, e1, e2, e0, some_open b some, b3, b1, b2, a, e3, e1, e2) refl
        | inr e0 ↦ rw (e3, e1, e2, e0, none_open b (ground arith)) refl
      ]
    ]
  ]
]

take_port_none : (b : ℕ) → b % 16 ≡ 0 → ((take_port b).0 ≡ 0) × ((take_port b).1 ≡ b)
unfolding take_port
take_port_none b none =
    let closed3 : b / 8 % 2 ≡ 0 = omega (arith, none) in
    let closed1 : b / 2 % 2 ≡ 0 = omega (arith, none) in
    let closed2 : b / 4 % 2 ≡ 0 = omega (arith, none) in
    let closed0 : b / 1 % 2 ≡ 0 = omega (arith, none) in
    rw (closed3, closed1, closed2, closed0) (refl, refl)

-- The open ports are a queue: `ecx_parentport` takes the first of them and leaves the others in their
-- order; when none is open it gives port 0 and changes nothing.
pub take_port-open_ports :
    (b : ℕ)
    → (open_ports b ≡ (if b % 16 == 0 then [] else (take_port b).0 ∷ open_ports (take_port b).1))
      × (b % 16 ≡ 0 → ((take_port b).0 ≡ 0) × ((take_port b).1 ≡ b))
take_port-open_ports b = (takes_first b, take_port_none b)
