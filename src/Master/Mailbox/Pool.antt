-- ===== src/Master/Mailbox/Pool.antt =====
-- How mailboxes leave the pool and come back.
use ether_cat_master.Prelude.{
  ℕ, zero, suc, ◌+◌, ◌<◌, ◌≤◌, ◌≡◌, refl, sym, ap, ◌∙◌, leb, ltb, ◌==◌, if◌then◌else◌, arith, List,
  [], ◌∷◌, ◌++◌, length, inl, inr, ◌&&◌, length-append, lt→ltb, Option, Option-cases, none, some,
}
use ether_cat_master.Prelude.Int.{pos}
use ether_cat_master.Memory.{update}
use ether_cat_master.Memory.Circle.{next, place, next-place, window, window-push}
use ether_cat_master.Master.Mailbox.{MailboxPool, initmbxpool, getmbx, dropmbx}

-- The free mailboxes, in the order in which they are handed out.
abbrev pub free : MailboxPool → List ℕ
free pool = window 32 pool.mbxemptylist pool.listtail pool.listcount

-- How often a number stands in a list.
abbrev pub count : ℕ → List ℕ → ℕ
count x [] = 0
count x (y ∷ ys) = if y == x then suc (count x ys) else count x ys

count-append : (x : ℕ) (xs ys : List ℕ) → count x (xs ++ ys) ≡ count x xs + count x ys
count-append x [] ys = omega arith
count-append x (y ∷ xs) ys = ground (arith, count-append x xs ys)

-- The life of a pool: what it is, and which mailboxes are out, the last one first.
pub data Life : MailboxPool → List ℕ → Type 0 where
  starts : Life initmbxpool []
  gets :
      {p : MailboxPool} {out : List ℕ} {item : ℕ}
      → Life p out
      → (getmbx p).1 ≡ some item
      → Life (getmbx p).0 (item ∷ out)
  drops :
      {p : MailboxPool} (before : List ℕ) (item : ℕ) (behind : List ℕ)
      → Life p (before ++ (item ∷ behind))
      → Life (dropmbx p (pos item)).0 (before ++ behind)

-- The shape of a pool.
pub record IsPool (p : MailboxPool) (out : List ℕ) : Type 0 where
  pub tail_ok : p.listtail < 32
  pub head_ok : p.listhead ≡ place 32 p.listtail p.listcount
  pub all_there : p.listcount + length out ≡ 32
  pub once : (x : ℕ) → count x (free p) + count x out ≡ (if ltb x 32 then 1 else 0)

-- The items in their own places, as far as the circle does not close.
count-window :
    (x tail n : ℕ)
    → tail + n ≤ 32
    → count x (window 32 (λ i. i) tail n) ≡ (if leb tail x && ltb x (tail + n) then 1 else 0)
unfolding window
count-window x tail zero h = ground arith
count-window x tail (suc zero) h = ground arith
count-window x tail (suc (suc n)) h = ground (arith, count-window x (next 32 tail) (suc n))

initmbxpool-IsPool : IsPool initmbxpool []
unfolding initmbxpool place
initmbxpool-IsPool = record {
  tail_ok = omega arith;
  head_ok = refl;
  all_there = refl;
  once = λ x. ground (arith, count-window x 0 32 (omega arith));
}

module _ (p : MailboxPool) (out : List ℕ) (item : ℕ) (ok : IsPool p out)
    (got : (getmbx p).1 ≡ some item) where
  getmbx_some :
      (p.listcount ≡ suc ((getmbx p).0.listcount))
      × ((getmbx p).0.listtail ≡ next 32 p.listtail)
      × ((getmbx p).0.listhead ≡ p.listhead)
      × ((getmbx p).0.mbxemptylist ≡ p.mbxemptylist)
      × (p.mbxemptylist p.listtail ≡ item)
  unfolding getmbx
  getmbx_some = ground arith

  -- One step of the window, once the counter is known to be a successor.
  free-getmbx : free p ≡ item ∷ free (getmbx p).0
  unfolding window
  free-getmbx =
      let s = getmbx_some in
      ap (λ (n : ℕ). window 32 p.mbxemptylist p.listtail n) s.0
      ∙ (λ i. s.4 i ∷ window 32 (sym s.3 i) (sym s.1 i) ((getmbx p).0.listcount))

  getmbx-IsPool : IsPool (getmbx p).0 (item ∷ out)
  unfolding place
  getmbx-IsPool = record {
    tail_ok = ground (arith, getmbx_some, ok.tail_ok);
    head_ok =
        let s = getmbx_some in
        s.2
        ∙ ok.head_ok
        ∙ ap (place 32 p.listtail) s.0
        ∙ ap (λ (t : ℕ). place 32 t ((getmbx p).0.listcount)) (sym s.1);
    all_there = omega (arith, getmbx_some.0, ok.all_there);
    once = λ x. ground (arith, ok.once x, ap (λ (xs : List ℕ). count x xs) free-getmbx);
  }

module _ (p : MailboxPool) (before behind : List ℕ) (item : ℕ)
    (ok : IsPool p (before ++ (item ∷ behind))) where
  length-out : length (before ++ (item ∷ behind)) ≡ suc (length (before ++ behind))
  length-out = omega (arith, length-append before (item ∷ behind), length-append before behind)

  count-out :
      (x : ℕ)
      → count x (before ++ (item ∷ behind)) ≡ count x (item ∷ []) + count x (before ++ behind)
  count-out x = ground (arith, count-append x before (item ∷ behind), count-append x before behind)

  item-lt : item < 32
  item-lt = ground (arith, ok.once item, count-out item)

  one_more : p.listcount + 1 ≡ suc p.listcount
  one_more = omega arith

  free-dropmbx : free (dropmbx p (pos item)).0 ≡ free p ++ (item ∷ [])
  unfolding dropmbx
  free-dropmbx = rw (lt→ltb item 32 item-lt) (
      ap (λ (h : ℕ). window 32 (update p.mbxemptylist h item) p.listtail (p.listcount + 1))
        ok.head_ok
      ∙ ap (window 32 (update p.mbxemptylist (place 32 p.listtail p.listcount) item) p.listtail)
          one_more
      ∙ window-push 32 p.mbxemptylist p.listtail p.listcount item ok.tail_ok
          (omega (arith, ok.all_there, length-out)))

  dropmbx-IsPool : IsPool (dropmbx p (pos item)).0 (before ++ behind)
  unfolding dropmbx
  dropmbx-IsPool = record {
    tail_ok = ground (arith, ok.tail_ok);
    head_ok = rw (lt→ltb item 32 item-lt) (
        ap (next 32) ok.head_ok
        ∙ next-place 32 p.listtail p.listcount
        ∙ ap (place 32 p.listtail) (sym one_more));
    all_there = ground (arith, ok.all_there, length-out, item-lt);
    once = λ x. ground (
      arith,
      ok.once x,
      count-out x,
      ap (λ (xs : List ℕ). count x xs) free-dropmbx,
      count-append x (free p) (item ∷ []),
    );
  }

Life-IsPool : {p : MailboxPool} {out : List ℕ} → Life p out → IsPool p out
Life-IsPool starts = initmbxpool-IsPool
Life-IsPool (gets {p} {out} {item} life got) = getmbx-IsPool p out item (Life-IsPool life) got
Life-IsPool (drops {p} before item behind life) =
    dropmbx-IsPool p before behind item (Life-IsPool life)

getmbx-none : (p : MailboxPool) → (getmbx p).1 ≡ none → p.listcount ≡ 0
unfolding getmbx
getmbx-none p h = ground arith

getmbx_fresh :
    (p : MailboxPool) (out : List ℕ) (item : ℕ)
    → IsPool p out
    → (getmbx p).1 ≡ some item
    → (item < 32) × (count item out ≡ 0)
getmbx_fresh p out item ok got =
    ground
      (arith, ok.once item, ap (λ (xs : List ℕ). count item xs) (free-getmbx p out item ok got))

-- What a request for a mailbox gives while the mailboxes of a list are out.
abbrev pub Fresh : List ℕ → Option ℕ → Type 0
Fresh out none = length out ≡ 32
Fresh out (some item) = (item < 32) × (count item out ≡ 0)

-- At any time in the life of a pool, in which mailboxes are only dropped while they are out: a
-- mailbox that is handed out is one of the pool's and is not out already, and none is refused
-- before all 32 are out.
pub getmbx-Fresh : (p : MailboxPool) (out : List ℕ) → Life p out → Fresh out (getmbx p).1
getmbx-Fresh p out life = elim (Option-cases (getmbx p).1) [
  | inl nothing ↦ rw nothing (omega (arith, getmbx-none p nothing, (Life-IsPool life).all_there))
  | inr (item, got) ↦ rw got (getmbx_fresh p out item (Life-IsPool life) got)
]
