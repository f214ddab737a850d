-- ===== src/Cia402/Double.antt =====
-- What the motion code does with C doubles: an interface, since there are no floating-point numbers
-- here. The laws are those of IEEE 754 arithmetic that the theorems need; NaN is not excluded.
use ether_cat_master.Prelude.{ℕ, ◌≡◌, Bool, true, false}
use ether_cat_master.Prelude.Int.{ℤ, pos}

pub record Double (W : Type 0) : Type 0 where
  pub of_int : ℤ → W  -- (double)n
  pub truncate : W → ℤ  -- (int32_t)x
  pub ratio : ℕ → ℕ → W  -- the literal a / b
  pub add : W → W → W
  pub subtract : W → W → W
  pub multiply : W → W → W
  pub divide : W → W → W
  pub negate : W → W
  pub sqrt : W → W
  pub lt : W → W → Bool
  pub le : W → W → Bool
  pub eq : W → W → Bool

module _ {W : Type 0} ⦃d : Double W⦄ where
  infixl 65 ◌⊕◌ ◌⊖◌
  infixl 70 ◌⊗◌ ◌⊘◌
  abbrev pub ◌⊕◌ : W → W → W
  x ⊕ y = d.add x y

  abbrev pub ◌⊖◌ : W → W → W
  x ⊖ y = d.subtract x y

  abbrev pub ◌⊗◌ : W → W → W
  x ⊗ y = d.multiply x y

  abbrev pub ◌⊘◌ : W → W → W
  x ⊘ y = d.divide x y

  abbrev pub nought : W
  nought = d.of_int (pos 0)

  abbrev pub half : W
  half = d.ratio 1 2

-- Comparisons, on any doubles. A comparison with NaN is false.
pub record IsOrdered {W : Type 0} (d : Double W) : Type 0 where
  pub lt_irrefl : (x : W) → d.lt x x ≡ false
  pub lt_asym : (x y : W) → d.lt x y ≡ true → d.lt y x ≡ false
  pub nought_lt_one : d.lt (d.of_int (pos 0)) (d.of_int (pos 1)) ≡ true
