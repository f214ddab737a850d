-- ===== src/Dc/Links.antt =====
-- What a round of `ecx_configdc` does to the fields that link the slaves.
use ether_cat_master.Prelude.{
  ℕ, zero, suc, ◌<◌, ◌≤◌, ◌≡◌, refl, sym, ap, ◌∙◌, ◌==◌, Bool, true, false, ◌||◌, if◌then◌else◌,
  arith, Bool-cases, ◌⊎◌, inl, inr, some,
}
use ether_cat_master.Memory.{Array, update}
use ether_cat_master.Dc.{Slave, Registers, modify}
use ether_cat_master.Dc.Ports.{parentport}
use ether_cat_master.Dc.Configure.{
  Configuring, open_slave, clear_times, link_slave, linked, opened, skip_slave, held_parent,
  connect, read_times, enter, measure, measure_from, enter_slave, dc_parent, clock_slave,
  configure_slave,
}

-- The fields of a slave that say where it stands.
abbrev pub links : Slave → ℕ × ℕ × Bool × ℕ
links s = (s.dc_next, s.dc_previous, s.hasdc, s.parent)

abbrev pub SameLinks : Array Slave → Array Slave → Type 0
SameLinks slaves slaves' = (j : ℕ) → links (slaves' j) ≡ links (slaves j)

open_slave-SameLinks : (i : ℕ) (slaves : Array Slave) → SameLinks slaves (open_slave i slaves)
unfolding open_slave modify update
open_slave-SameLinks i slaves j = ground arith

clear_times-SameLinks : (i : ℕ) (slaves : Array Slave) → SameLinks slaves (clear_times i slaves)
unfolding clear_times modify update
clear_times-SameLinks i slaves j = ground arith

parentport-SameLinks : (slaves : Array Slave) (i : ℕ) → SameLinks slaves (parentport slaves i).0
unfolding parentport modify update
parentport-SameLinks slaves i j = ground arith

connect-SameLinks :
    (i parent : ℕ) (slaves : Array Slave) → SameLinks slaves (connect i parent slaves)
unfolding connect modify update
connect-SameLinks i parent slaves j = ground (arith, parentport-SameLinks slaves parent j)

module _ {S : Type 0} where
  pub skip_slave-SameLinks :
      (i : ℕ) (c : Configuring S)
      → SameLinks c.slavelist (skip_slave i c).slavelist
        × ((skip_slave i c).prev_dc_slave ≡ c.prev_dc_slave)
  unfolding skip_slave
  skip_slave-SameLinks i c = (
    (λ j. ground (
      arith,
      clear_times-SameLinks i c.slavelist j,
      parentport-SameLinks (clear_times i c.slavelist)
          (held_parent i (clear_times i c.slavelist) c.parenthold) j,
    )),
    ground arith,
  )

module _ {S : Type 0} (reg : Registers S) (master stale : ℕ) where
  read_times-SameLinks :
      (i : ℕ) (c : Configuring S)
      → SameLinks c.slavelist (read_times reg master stale i c).slavelist
  unfolding read_times modify update
  read_times-SameLinks i c j = ground arith

  enter-SameLinks :
      (i : ℕ) (slaves : Array Slave) → SameLinks slaves (enter reg master stale i slaves)
  unfolding enter modify update
  enter-SameLinks i slaves j = ground arith

  measure_from-SameLinks :
      (i : ℕ) (found : ℕ × ℕ) (c : Configuring S)
      → SameLinks c.slavelist (measure_from reg master stale i found c).slavelist
        × ((measure_from reg master stale i found c).prev_dc_slave ≡ c.prev_dc_slave)
  unfolding measure modify update
  measure_from-SameLinks i (parent, child) c =
      ((λ j. ground (arith, connect-SameLinks i parent c.slavelist j)), ground arith)

-- The slave list of a round that finds a distributed clock.
pub record Joins {S : Type 0} (i : ℕ) (c c' : Configuring S) : Type 0 where
  pub next_of :
      (j : ℕ)
      → (c'.slavelist j).dc_next ≡ (if j == c.prev_dc_slave then i else (c.slavelist j).dc_next)
  pub previous_of :
      (j : ℕ)
      → (c'.slavelist j).dc_previous
        ≡ (if j == i then c.prev_dc_slave else (c.slavelist j).dc_previous)
  pub hasdc_of : (j : ℕ) → (c'.slavelist j).hasdc ≡ (if j == 0 then true else (c.slavelist j).hasdc)
  pub parent_of : (j : ℕ) → (c'.slavelist j).parent ≡ (c.slavelist j).parent
  pub last : c'.prev_dc_slave ≡ i

-- The slave list of a round that does not.
pub record Passes {S : Type 0} (c c' : Configuring S) : Type 0 where
  pub same_links : SameLinks c.slavelist c'.slavelist
  pub same_last : c'.prev_dc_slave ≡ c.prev_dc_slave

-- Until there is a slave with a distributed clock, the last one is the master.
abbrev pub IsStart : {S : Type 0} → Configuring S → Type 0
IsStart c = (c.slavelist 0).hasdc ≡ false → c.prev_dc_slave ≡ 0

-- Parents stand in front of their children.
abbrev pub Descends : ℕ → Array Slave → Type 0
Descends n slaves = (j : ℕ) → 0 < j → j ≤ n → (slaves j).parent < j

dc_parent-Descends :
    (steps at : ℕ) (slaves : Array Slave)
    → Descends at slaves
    → 0 < at
    → at ≤ steps
    → (found : ℕ × ℕ) × (dc_parent steps slaves at ≡ some found)
unfolding dc_parent
dc_parent-Descends zero at slaves down some_at enough = absurd (omega arith)
dc_parent-Descends (suc steps) at slaves down some_at enough =
    let below : (slaves at).parent < at = down at some_at (omega arith) in
    elim (Bool-cases ((slaves at).parent == 0 || (slaves (slaves at).parent).hasdc)) [
      | inl e ↦ rw e (_, refl)
      | inr e ↦ rw e (
          dc_parent-Descends steps (slaves at).parent slaves
            (λ j low high. down j low (omega arith)) (ground arith) (omega arith))
    ]

module _ {S : Type 0} where
  abbrev bare : ℕ → Configuring S → Configuring S
  bare i c = record c { slavelist = link_slave i c.slavelist c.prev_dc_slave; prev_dc_slave = i }

  link_slave-Joins :
      (i : ℕ) (c : Configuring S) → IsStart c → c.prev_dc_slave < i → Joins i c (bare i c)
  unfolding link_slave modify update
  link_slave-Joins i c start before = record {
    next_of = λ j. ground arith;
    previous_of = λ j. ground arith;
    hasdc_of = λ j. ground arith;
    parent_of = λ j. ground arith;
    last = refl;
  }

  Joins-SameLinks :
      (i : ℕ) (c c1 c2 : Configuring S)
      → Joins i c c1
      → SameLinks c1.slavelist c2.slavelist
      → c2.prev_dc_slave ≡ c1.prev_dc_slave
      → Joins i c c2
  Joins-SameLinks i c c1 c2 joins same last = record {
    next_of = λ j. ap (λ l. l.0) (same j) ∙ joins.next_of j;
    previous_of = λ j. ap (λ l. l.1) (same j) ∙ joins.previous_of j;
    hasdc_of = λ j. ap (λ l. l.2) (same j) ∙ joins.hasdc_of j;
    parent_of = λ j. ap (λ l. l.3) (same j) ∙ joins.parent_of j;
    last = last ∙ joins.last;
  }

  Joins-before :
      (i : ℕ) (c c1 c2 : Configuring S)
      → SameLinks c.slavelist c1.slavelist
      → c1.prev_dc_slave ≡ c.prev_dc_slave
      → Joins i c1 c2
      → Joins i c c2
  Joins-before i c c1 c2 same last joins = record {
    next_of = λ j. ground (arith, joins.next_of j, ap (λ l. l.0) (same j));
    previous_of = λ j. ground (arith, joins.previous_of j, ap (λ l. l.1) (same j));
    hasdc_of = λ j. ground (arith, joins.hasdc_of j, ap (λ l. l.2) (same j));
    parent_of = λ j. joins.parent_of j ∙ ap (λ l. l.3) (same j);
    last = joins.last;
  }

module _ {S : Type 0} (reg : Registers S) (master stale : ℕ) where
  enter_slave-Joins :
      (i : ℕ) (c : Configuring S)
      → IsStart c
      → c.prev_dc_slave < i
      → Joins i c (enter_slave reg master stale i c)
  unfolding enter_slave
  enter_slave-Joins i c start before =
      Joins-SameLinks i c (bare i c) (enter_slave reg master stale i c)
        (link_slave-Joins i c start before)
        (λ j.
          enter-SameLinks reg master stale i
            (read_times reg master stale i (linked reg master stale i c)).slavelist j
          ∙ read_times-SameLinks reg master stale i (linked reg master stale i c) j)
        refl

  -- A round, by whether the slave has a distributed clock.
  abbrev pub Round : ℕ → Configuring S → Configuring S → Type 0
  Round i c c' =
      (((c.slavelist i).hasdc ≡ true) × Joins i c c')
      ⊎ (((c.slavelist i).hasdc ≡ false) × Passes c c')

  clock_slave-Joins :
      (i : ℕ) (c : Configuring S)
      → IsStart c
      → c.prev_dc_slave < i
      → Descends i c.slavelist
      → (c' : Configuring S) × (clock_slave reg master stale i c ≡ some c') × Joins i c c'
  unfolding clock_slave
  clock_slave-Joins i c start before down =
      let entered = enter_slave reg master stale i c in
      let joins = enter_slave-Joins i c start before in
      let (found, eq) =
        dc_parent-Descends i i entered.slavelist
          (λ j low high. omega (arith, joins.parent_of j, down j low high)) (omega arith)
          (omega arith) in
      let (same, last) = measure_from-SameLinks reg master stale i found entered in
      (
        measure_from reg master stale i found entered,
        rw eq refl,
        Joins-SameLinks i c entered (measure_from reg master stale i found entered) joins same last,
      )

  configure_slave_if :
      (i : ℕ) (c : Configuring S) (b : Bool)
      → (c.slavelist i).hasdc ≡ b
      → configure_slave reg master stale i c ≡ (
          if b
          then clock_slave reg master stale i (opened reg master stale i c)
          else some (skip_slave i (opened reg master stale i c)))
  unfolding configure_slave
  configure_slave_if i c b e =
      ap
        (λ (t : Bool).
          if t
          then clock_slave reg master stale i (opened reg master stale i c)
          else some (skip_slave i (opened reg master stale i c)))
        e

  pub configure_slave-Round :
      (i : ℕ) (c : Configuring S)
      → IsStart c
      → c.prev_dc_slave < i
      → Descends i c.slavelist
      → (c' : Configuring S) × (configure_slave reg master stale i c ≡ some c') × Round i c c'
  configure_slave-Round i c start before down =
      let same = open_slave-SameLinks i c.slavelist in
      elim (Bool-cases (c.slavelist i).hasdc) [
        | inl e ↦
            let (c', ran, joins) =
              clock_slave-Joins i (opened reg master stale i c)
                (λ h. start (sym (ap (λ l. l.2) (same 0)) ∙ h)) before
                (λ j low high. omega (arith, ap (λ l. l.3) (same j), down j low high)) in
            (
              c',
              configure_slave_if i c true e ∙ ran,
              inl (e, Joins-before i c (opened reg master stale i c) c' same refl joins),
            )
        | inr e ↦
            let (same', last) = skip_slave-SameLinks i (opened reg master stale i c) in
            (
              skip_slave i (opened reg master stale i c),
              configure_slave_if i c false e,
              inr (e, record { same_links = λ j. same' j ∙ same j; same_last = last }),
            )
      ]
