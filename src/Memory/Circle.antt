-- ===== src/Memory/Circle.antt =====
-- Circular arrays: what stands in `n` places from `tail` on, going round at `size`.
use ether_cat_master.Prelude.{
  ℕ, zero, suc, ◌+◌, ◌-◌, ◌<◌, ◌≤◌, ◌≡◌, ◌≢◌, refl, ap, leb, if◌then◌else◌, arith, List, [], ◌∷◌,
  ◌++◌, length, drop,
}
use ether_cat_master.Memory.{Array, update, update_self, update_ne}

-- `i++; if (i >= size) i = 0;`
abbrev pub next : ℕ → ℕ → ℕ
next size i = if leb size (i + 1) then 0 else i + 1

-- The place `n` steps behind `i`.
unfoldable pub place : ℕ → ℕ → ℕ → ℕ
place size i zero = i
place size i (suc n) = place size (next size i) n

pub place_eq :
    (size i n : ℕ)
    → i < size
    → n ≤ size
    → place size i n ≡ (if leb size (i + n) then i + n - size else i + n)
unfolding place
place_eq size i zero h b = ground arith
place_eq size i (suc n) h b = ground (arith, place_eq size (next size i) n)

pub next-place : (size i n : ℕ) → next size (place size i n) ≡ place size i (suc n)
unfolding place
next-place size i zero = refl
next-place size i (suc n) = next-place size (next size i) n

module _ {A : Type 0} where
  unfoldable pub window : ℕ → Array A → ℕ → ℕ → List A
  window size a tail zero = []
  window size a tail (suc n) = a tail ∷ window size a (next size tail) n

  pub length-window : (size : ℕ) (a : Array A) (tail n : ℕ) → length (window size a tail n) ≡ n
  unfolding window
  length-window size a tail zero = refl
  length-window size a tail (suc n) = ap suc (length-window size a (next size tail) n)

  -- A value written behind the last place joins the window at its end.
  pub window-push :
      (size : ℕ) (a : Array A) (tail n : ℕ) (v : A)
      → tail < size
      → n < size
      → window size (update a (place size tail n) v) tail (suc n) ≡ window size a tail n ++ (v ∷ [])
  unfolding window place
  window-push size a tail zero v h b = rw (update_self a tail v) refl
  window-push size a tail (suc n) v h b =
      let apart : tail ≢ place size (next size tail) n =
        ground (arith, place_eq size (next size tail) n) in
      rw (update_ne a (place size (next size tail) n) tail v apart) (
        ap (λ (xs : List A). a tail ∷ xs)
          (window-push size a (next size tail) n v (ground arith) (omega arith)))

  -- A write outside the window does not show.
  pub window_frame :
      (size : ℕ) (a : Array A) (tail n i : ℕ) (v : A)
      → ((k : ℕ) → k < n → place size tail k ≢ i)
      → window size (update a i v) tail n ≡ window size a tail n
  unfolding window place
  window_frame size a tail zero i v h = refl
  window_frame size a tail (suc n) i v h = rw (update_ne a i tail v (h 0 (omega arith))) (
      ap (λ (xs : List A). a tail ∷ xs)
        (window_frame size a (next size tail) n i v (λ k l. h (suc k) (omega arith))))

  -- The same where the window moves on by one place.
  pub window-shift :
      (size : ℕ) (a : Array A) (tail n : ℕ) (v : A)
      → tail < size
      → suc n < size
      → window size (update a (place size tail (suc n)) v) (next size tail) (suc n)
        ≡ drop 1 (window size a tail (suc n)) ++ (v ∷ [])
  unfolding window
  window-shift size a tail n v h b =
      ap (λ (xs : List A). drop 1 xs) (window-push size a tail (suc n) v h b)
