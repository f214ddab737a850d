-- ===== src/Prelude/Bits.antt =====
-- Masks of a machine word: `x & m` for a mask `m` below 2 ^ k depends on the low k bits of x only.
use Prim.Native.Nat.{min, digits, bit_and-bitwise}
use ether_cat_master.Prelude.{
  ℕ, zero, suc, ◌+◌, ◌*◌, ◌/◌, ◌%◌, ◌≤◌, ◌<◌, ◌≡◌, refl, sym, Bool, true, ◌&&◌, arith, bit_and, ap,
  ◌∙◌, ◌^◌,
}
use native.Mathlib.Nat.{
  mod-lt, mod-eq_of_lt, div-add-mod, pow-suc, pow-succ', add-mul-mod_self_left,
}

-- A test of all numbers under a bound.
unfoldable pub passes_to : (ℕ → Bool) → ℕ → Bool
passes_to test zero = true
passes_to test (suc top) = passes_to test top && test top

pub passes_to-at :
    (test : ℕ → Bool) (bound i : ℕ) → i < bound → passes_to test bound ≡ true → test i ≡ true
unfolding passes_to
passes_to-at test zero i below h = absurd (omega arith)
passes_to-at test (suc top) i below h = ground (arith, passes_to-at test top i)

-- Halving commutes with the remainder by an even number.
mod_double : (p a : ℕ) → 0 < p → a % (2 * p) ≡ 2 * (a / 2 % p) + a % 2
mod_double p a h =
    ap (λ (t : ℕ). t % (2 * p)) regroup
    ∙ add-mul-mod_self_left (2 * (a / 2 % p) + a % 2) (2 * p) (a / 2 / p)
    ∙ mod-eq_of_lt (omega (arith, mod-lt (a / 2) h))
  where
    regroup : a ≡ 2 * (a / 2 % p) + a % 2 + 2 * p * (a / 2 / p)
    regroup = omega (arith, div-add-mod (a / 2) p)

pow_pos : (k : ℕ) → 0 < 2 ^ k
pow_pos zero = omega arith
pow_pos (suc k) = omega (arith, pow-suc 2 k, pow_pos k)

-- The digits of `x & m`, with the rounds that are left.
abbrev masked : ℕ → ℕ → ℕ → ℕ
masked rounds x m = digits (λ y. zero) min rounds x m

rounds_left : ℕ → ℕ
rounds_left zero = zero
rounds_left (suc rounds) = rounds

-- Zero has no digit to share.
masked_none : (rounds m : ℕ) → masked rounds 0 m ≡ 0
masked_none zero m = refl
masked_none (suc rounds) m = refl

-- One digit is worked off in one round.
masked_round :
    (rounds x m : ℕ)
    → x ≤ rounds
    → masked rounds x m ≡ 2 * masked (rounds_left rounds) (x / 2) (m / 2) + min (x % 2) (m % 2)
unfolding rounds_left
masked_round rounds zero m fits =
    omega (arith, masked_none rounds m, masked_none (rounds_left rounds) (m / 2))
masked_round zero (suc x) m fits = absurd (omega arith)
masked_round (suc rounds) (suc x) m fits = omega arith

rounds_left-half : (rounds x : ℕ) → x ≤ rounds → x / 2 ≤ rounds_left rounds
unfolding rounds_left
rounds_left-half zero x fits = omega arith
rounds_left-half (suc rounds) x fits = omega arith

-- A mask of zero lets nothing through.
masked_nothing : (rounds x : ℕ) → x ≤ rounds → masked rounds x 0 ≡ 0
unfolding rounds_left
masked_nothing zero x fits = refl
masked_nothing (suc rounds) x fits =
    omega (arith, masked_round (suc rounds) x 0 fits, masked_nothing rounds (x / 2) (omega arith))

-- Bits behind the mask's last one do not matter, whatever the rounds.
masked_window :
    (k rounds others x m : ℕ)
    → m < 2 ^ k
    → x ≤ rounds
    → x % 2 ^ k ≤ others
    → masked rounds x m ≡ masked others (x % 2 ^ k) m
masked_window zero rounds others x m small fits fits_others =
    let e : m ≡ 0 = omega arith in
    rw e (masked_nothing rounds x fits ∙ sym (masked_nothing others (x % 2 ^ 0) fits_others))
masked_window (suc k) rounds others x m small fits fits_others = omega (
  arith,
  masked_round rounds x m fits,
  masked_round others (x % 2 ^ suc k) m fits_others,
  masked_window k (rounds_left rounds) (rounds_left others) (x / 2) (m / 2)
      (omega (arith, pow-suc 2 k)) (rounds_left-half rounds x fits)
      (omega (arith, high, rounds_left-half others (x % 2 ^ suc k) fits_others)),
  ap (λ (t : ℕ). masked (rounds_left others) t (m / 2)) high,
  split,
)
  where
    split : x % 2 ^ suc k ≡ 2 * (x / 2 % 2 ^ k) + x % 2
    split = rw pow-succ' (mod_double (2 ^ k) x (pow_pos k))

    high : x % 2 ^ suc k / 2 ≡ x / 2 % 2 ^ k
    high = omega (arith, split)

-- A mask below 2 ^ k sees the low k bits only.
pub bit_and-mod_pow : (k x m : ℕ) → m < 2 ^ k → bit_and x m ≡ bit_and (x % 2 ^ k) m
bit_and-mod_pow k x m small =
    bit_and-bitwise x m
    ∙ masked_window k x (x % 2 ^ k) x m small (omega arith) (omega arith)
    ∙ sym (bit_and-bitwise (x % 2 ^ k) m)
