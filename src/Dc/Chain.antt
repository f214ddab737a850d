-- ===== src/Dc/Chain.antt =====
-- The list of slaves with distributed clocks that `ecx_configdc` makes.
use mathlib.Core.Path.{subst}
use mathlib.Core.Bool.{true≢false}
use ether_cat_master.Prelude.{
  ℕ, zero, suc, ◌+◌, ◌<◌, ◌≤◌, ◌≡◌, ◌≢◌, refl, sym, ap, ◌∙◌, Bool, true, false, ◌||◌, if◌then◌else◌,
  arith, inl, inr, Option, some, List, [], ◌∷◌, ◌>>=◌,
}
use ether_cat_master.Prelude.Int.{ℤ}
use ether_cat_master.Memory.{Array, update}
use ether_cat_master.Dc.{Slave, Group, Registers, modify}
use ether_cat_master.Dc.Configure.{
  Configuring, configure_slave, configuring, configure_slaves, configdc,
}
use ether_cat_master.Dc.Links.{Joins, Passes, IsStart, Descends, configure_slave-Round}

-- The slaves with distributed clocks among `count` slaves from `i` on.
unfoldable pub dc_slaves : ℕ → ℕ → Array Slave → List ℕ
dc_slaves zero i slaves = []
dc_slaves (suc count) i slaves =
    let rest = dc_slaves count (suc i) slaves in if (slaves i).hasdc then i ∷ rest else rest

-- From slave `a` on `dc_next` goes through the list, and `dc_previous` goes back.
abbrev pub Chained : Array Slave → ℕ → List ℕ → Type 0
Chained slaves a [] = Unit
Chained slaves a (b ∷ rest) =
    ((slaves a).dc_next ≡ b) × ((slaves b).dc_previous ≡ a) × Chained slaves b rest

dc_slaves_same :
    (count i : ℕ) (slaves slaves' : Array Slave)
    → ((j : ℕ) → i ≤ j → (slaves' j).hasdc ≡ (slaves j).hasdc)
    → dc_slaves count i slaves' ≡ dc_slaves count i slaves
unfolding dc_slaves
dc_slaves_same zero i slaves slaves' h = refl
dc_slaves_same (suc count) i slaves slaves' h =
    rw (h i (omega arith), dc_slaves_same count (suc i) slaves slaves' (λ j b. h j (omega arith)))
      refl

abbrev pub is_some : List ℕ → Bool
is_some [] = false
is_some (i ∷ rest) = true

-- The links in front of slave `i` stay, but for the one of the last slave so far.
pub record Keeps {S : Type 0} (i : ℕ) (c c' : Configuring S) : Type 0 where
  pub next_kept :
      (j : ℕ) → j < i → j ≢ c.prev_dc_slave → (c'.slavelist j).dc_next ≡ (c.slavelist j).dc_next
  pub previous_kept : (j : ℕ) → j < i → (c'.slavelist j).dc_previous ≡ (c.slavelist j).dc_previous

-- Only the master is reset in front of the loop.
abbrev first_list : Array Slave → Array Slave
first_list slaves = modify slaves 0 (λ s. record s { hasdc = false })

first_slaves :
    (slaves : Array Slave) (j : ℕ)
    → 0 < j
    → ((first_list slaves j).hasdc ≡ (slaves j).hasdc)
      × ((first_list slaves j).parent ≡ (slaves j).parent)
unfolding modify update
first_slaves slaves j h = (ground arith, ground arith)

first_master : (slaves : Array Slave) → (first_list slaves 0).hasdc ≡ false
unfolding modify update
first_master slaves = refl

module _ {S : Type 0} (reg : Registers S) (master stale : ℕ) where
  abbrev Result : ℕ → ℕ → Configuring S → Type 0
  Result count i c =
      (c' : Configuring S) × (configure_slaves reg master stale count i c ≡ some c')
      × Chained c'.slavelist c.prev_dc_slave (dc_slaves count i c.slavelist)
      × Keeps i c c'
      × ((c'.slavelist 0).hasdc
          ≡ ((c.slavelist 0).hasdc || is_some (dc_slaves count i c.slavelist)))

  Result-Joins :
      (count i : ℕ) (c c1 : Configuring S)
      → (c.slavelist i).hasdc ≡ true
      → c.prev_dc_slave < i
      → configure_slave reg master stale i c ≡ some c1
      → Joins i c c1
      → Result count (suc i) c1
      → Result (suc count) i c
  unfolding configure_slaves dc_slaves
  Result-Joins count i c c1 has before ran joins (c', rest_ran, chained, keeps, found) =
      rw (ran, has)
        (
          c',
          rest_ran,
          (
            ground
                (arith, keeps.next_kept c.prev_dc_slave, joins.next_of c.prev_dc_slave, joins.last),
            ground (arith, keeps.previous_kept i, joins.previous_of i),
            subst (λ xs. Chained c'.slavelist i xs)
                (dc_slaves_same count (suc i) c.slavelist c1.slavelist
                  (λ j b. ground (arith, joins.hasdc_of j)))
                (subst (λ a. Chained c'.slavelist a (dc_slaves count (suc i) c1.slavelist))
                  joins.last chained),
          ),
          record {
            next_kept = λ j b n. ground (arith, keeps.next_kept j, joins.next_of j, joins.last);
            previous_kept = λ j b. ground (arith, keeps.previous_kept j, joins.previous_of j);
          },
          ground (arith, found, joins.hasdc_of 0),
        )

  Result-Passes :
      (count i : ℕ) (c c1 : Configuring S)
      → (c.slavelist i).hasdc ≡ false
      → configure_slave reg master stale i c ≡ some c1
      → Passes c c1
      → Result count (suc i) c1
      → Result (suc count) i c
  unfolding configure_slaves dc_slaves
  Result-Passes count i c c1 has ran passes (c', rest_ran, chained, keeps, found) =
      rw (ran, has)
        (
          c',
          rest_ran,
          subst (λ xs. Chained c'.slavelist c.prev_dc_slave xs)
              (dc_slaves_same count (suc i) c.slavelist c1.slavelist
                (λ j b. ap (λ l. l.2) (passes.same_links j)))
              (subst (λ a. Chained c'.slavelist a (dc_slaves count (suc i) c1.slavelist))
                passes.same_last chained),
          record {
            next_kept = λ j b n.
                ground
                  (arith, keeps.next_kept j, ap (λ l. l.0) (passes.same_links j), passes.same_last);
            previous_kept =
                λ j b. keeps.previous_kept j (omega arith) ∙ ap (λ l. l.1) (passes.same_links j);
          },
          found
              ∙ ap (λ (b : Bool). b || is_some (dc_slaves count (suc i) c1.slavelist))
                  (ap (λ l. l.2) (passes.same_links 0))
              ∙ ap (λ xs. (c.slavelist 0).hasdc || is_some xs)
                  (dc_slaves_same count (suc i) c.slavelist c1.slavelist
                    (λ j b. ap (λ l. l.2) (passes.same_links j))),
        )

  configure_slaves-Chained :
      (count i : ℕ) (c : Configuring S)
      → 0 < i
      → IsStart c
      → c.prev_dc_slave < i
      → ((j : ℕ) → 0 < j → j < i + count → (c.slavelist j).parent < j)
      → Result count i c
  unfolding configure_slaves dc_slaves
  configure_slaves-Chained zero i c some_i start before down =
      (c, refl, tt, record { next_kept = λ j b n. refl; previous_kept = λ j b. refl }, ground arith)
  configure_slaves-Chained (suc count) i c some_i start before down =
      let (c1, ran, round) =
        configure_slave-Round reg master stale i c start before
          (λ j low high. down j low (omega arith)) in
      elim round [
        | inl (has, joins) ↦ Result-Joins count i c c1 has before ran joins (
            configure_slaves-Chained count (suc i) c1 (omega arith)
              (λ h. absurd (true≢false (sym (joins.hasdc_of 0) ∙ h))) (omega (arith, joins.last))
              (λ j low high. omega (arith, joins.parent_of j, down j low)))
        | inr (has, passes) ↦ Result-Passes count i c c1 has ran passes (
            configure_slaves-Chained count (suc i) c1 (omega arith)
              (λ h. passes.same_last ∙ start (sym (ap (λ l. l.2) (passes.same_links 0)) ∙ h))
              (omega (arith, passes.same_last))
              (λ j low high. omega (arith, ap (λ l. l.3) (passes.same_links j), down j low)))
      ]

  -- If each slave's parent stands in front of it, `ecx_configdc` ends: every search for a parent takes no
  -- more rounds than it is given. Then `DCnext` goes from the master through the slaves that have
  -- distributed clocks, in their order and without leaving one out, `DCprevious` goes back the same way,
  -- and the result says whether there is such a slave.
  pub configdc-Chained :
      (slavecount : ℕ) (bus : S) (slaves : Array Slave) (groups : Array Group) (hrt : ℤ)
      → Descends slavecount slaves
      → (c : Configuring S) × (configdc reg master stale slavecount bus slaves groups hrt
          ≡ some (c, is_some (dc_slaves slavecount 1 slaves)))
        × Chained c.slavelist 0 (dc_slaves slavecount 1 slaves)
  unfolding configdc
  configdc-Chained slavecount bus slaves groups hrt down =
      let first = configuring reg master stale bus slaves groups hrt in
      let same = first_slaves slaves in
      let listed = dc_slaves_same slavecount 1 slaves first.slavelist (λ j b. (same j b).0) in
      let (c, ran, chained, keeps, found) =
        configure_slaves-Chained slavecount 1 first (omega arith) (λ h. refl) (omega arith)
          (λ j low high. omega (arith, (same j low).1, down j low)) in
      (
        c,
        ap
              (λ (o : Option (Configuring S)).
                o >>= (λ (d : Configuring S). some (d, (d.slavelist 0).hasdc)))
              ran
            ∙ ap (λ (b : Bool). some (c, b)) (found ∙ ap is_some listed),
        subst (λ xs. Chained c.slavelist 0 xs) listed chained,
      )
