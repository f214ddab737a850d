-- ===== src/Memory.antt =====
-- Arrays of C as functions of the index, byte buffers, and the little-endian words in them.
pub mod Circle
use ether_cat_master.Prelude.{
  ℕ, ◌+◌, ◌-◌, ◌*◌, ◌/◌, ◌%◌, ◌<◌, ◌≤◌, ◌≡◌, ◌≢◌, ◌&&◌, ltb, leb, ◌==◌, if◌then◌else◌, arith, tests,
  Bool-cases, inl, inr, leb→le, ap,
}

-- Reads and writes do not test the index, as in C; a write to one index is kept apart from all
-- others, also behind the end of the array of the program.
abbrev pub Array : Type 0 → Type 0
Array A = ℕ → A

abbrev pub Buffer : Type 0
Buffer = Array ℕ

module _ {A : Type 0} where
  unfoldable pub update : Array A → ℕ → A → Array A
  update a i v j = if j == i then v else a j

  pub update_self : (a : Array A) (i : ℕ) (v : A) → update a i v i ≡ v
  unfolding update
  update_self a i v = ground arith

  pub update_ne : (a : Array A) (i j : ℕ) (v : A) → j ≢ i → update a i v j ≡ a j
  unfolding update
  update_ne a i j v h = ground arith

-- `memcpy(&dst[offset], src, n)`
unfoldable pub copy : Buffer → ℕ → Buffer → ℕ → Buffer
copy dst offset src n j = if leb offset j && ltb j (offset + n) then src (j - offset) else dst j

-- `&buf[offset]`
unfoldable pub from : Buffer → ℕ → Buffer
from buf offset j = buf (offset + j)

abbrev pub zeros : Buffer
zeros j = 0

-- A 16-bit word at `offset`, the low byte first (EC_LITTLE_ENDIAN, where `htoes` and `etohs` do
-- nothing).
unfoldable pub put16 : Buffer → ℕ → ℕ → Buffer
unfolding update
put16 buf offset w = update (update buf offset (w % 256)) (offset + 1) (w / 256 % 256)

unfoldable pub get16 : Buffer → ℕ → ℕ
get16 buf offset = buf offset + 256 * buf (offset + 1)

-- A 32-bit word, in the same way.
unfoldable pub put32 : Buffer → ℕ → ℕ → Buffer
unfolding put16
put32 buf offset w = put16 (put16 buf offset (w % 65536)) (offset + 2) (w / 65536 % 65536)

unfoldable pub get32 : Buffer → ℕ → ℕ
unfolding get16
get32 buf offset = get16 buf offset + 65536 * get16 buf (offset + 2)

pub get16-put16 : (buf : Buffer) (o w : ℕ) → w < 65536 → get16 (put16 buf o w) o ≡ w
unfolding get16 put16
get16-put16 buf o w h = ground arith

-- A copy behind the bytes of `p` that are there brings the next bytes of `p`.
pub copy-extends :
    (dst src p : Buffer) (offset n : ℕ)
    → ((j : ℕ) → j < offset → dst j ≡ p j)
    → ((j : ℕ) → j < n → src j ≡ p (offset + j))
    → (j : ℕ) → j < offset + n
    → copy dst offset src n j ≡ p j
unfolding copy
copy-extends dst src p offset n before new j h = elim (Bool-cases (leb offset j)) [
  | inl e ↦ rw e (ground (arith, new (j - offset) (omega (tests, leb→le offset j e)), back))
  | inr e ↦ rw e (before j (ground arith))
]
  where
    back : offset ≤ j → p (offset + (j - offset)) ≡ p j
    back b = ap p (omega arith)
