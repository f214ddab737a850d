-- ===== src/Cia402/Fixed.antt =====
-- Numbers in thousandths, rounded towards zero: one way to run the motion code on examples, and to
-- see that the laws asked of `double` can hold.
use ether_cat_master.Prelude.{ℕ, ◌+◌, ◌*◌, ◌/◌, arith}
use ether_cat_master.Prelude.Int.{ℤ, pos, negsuc, pos_part, neg_part, sub_ℕ, ltb_ℤ, leb_ℤ, eqb_ℤ}
use ether_cat_master.Cia402.Double.{Double, IsOrdered}

abbrev magnitude : ℤ → ℕ
magnitude a = pos_part a + neg_part a

-- A number of the given size, with the sign of the product of two others.
abbrev signed_as : ℤ → ℤ → ℕ → ℤ
signed_as (pos a) (pos b) n = pos n
signed_as (pos a) (negsuc b) n = sub_ℕ 0 n
signed_as (negsuc a) (pos b) n = sub_ℕ 0 n
signed_as (negsuc a) (negsuc b) n = pos n

instance abbrev pub thousandths : Double ℤ
thousandths = record {
  of_int = λ n. signed_as n (pos 1) (magnitude n * 1000);
  truncate = λ x. signed_as x (pos 1) (magnitude x / 1000);
  ratio = λ a b. pos (a * 1000 / b);
  add = λ x y. sub_ℕ (pos_part x + pos_part y) (neg_part x + neg_part y);
  subtract = λ x y. sub_ℕ (pos_part x + neg_part y) (neg_part x + pos_part y);
  multiply = λ x y. signed_as x y (magnitude x * magnitude y / 1000);
  divide = λ x y. signed_as x y (magnitude x * 1000 / magnitude y);
  negate = λ x. sub_ℕ (neg_part x) (pos_part x);
  sqrt = λ x. x;
  lt = ltb_ℤ;
  le = leb_ℤ;
  eq = eqb_ℤ;
}

pub thousandths-IsOrdered : IsOrdered thousandths
thousandths-IsOrdered = record {
  lt_irrefl = λ x. ground arith;
  lt_asym = λ x y h. ground arith;
  nought_lt_one = ground arith;
}
