-- ===== src/Master/Mailbox.antt =====
-- The mailbox pool: `ecx_initmbxpool`, `ecx_getmbx`, `ecx_dropmbx`.
pub mod Pool
use ether_cat_master.Prelude.{ℕ, ◌+◌, ◌-◌, ltb, leb, if◌then◌else◌, Option, none, some}
use ether_cat_master.Prelude.Int.{ℤ, pos, negsuc}
use ether_cat_master.Memory.{Array, update}
use ether_cat_master.Memory.Circle.{next}

-- EC_MBXPOOLSIZE, as the build sets it.
abbrev pub ec_mbxpoolsize : ℕ
ec_mbxpoolsize = 32

-- `ec_mbxpoolt` without the mailboxes: a pointer to one of them is its number.
pub record MailboxPool : Type 0 where
  pub listhead : ℕ
  pub listtail : ℕ
  pub listcount : ℕ
  pub mbxemptylist : Array ℕ

-- The loop over the empty list writes every item into its own place.
unfoldable pub initmbxpool : MailboxPool
initmbxpool = record {
  listhead = 0;
  listtail = 0;
  listcount = ec_mbxpoolsize;
  mbxemptylist = λ item. item;
}

unfoldable pub getmbx : MailboxPool → MailboxPool × Option ℕ
getmbx pool =
    if ltb 0 pool.listcount
    then (
      record pool { listtail = next ec_mbxpoolsize pool.listtail; listcount = pool.listcount - 1 },
      some (pool.mbxemptylist pool.listtail),
    )
    else (pool, none)

-- `item` is the difference of the pointer and the first mailbox. The result is 1 or 0.
unfoldable pub dropmbx : MailboxPool → ℤ → MailboxPool × ℕ
unfolding update
dropmbx pool (negsuc _) = (pool, 0)
dropmbx pool (pos item) =
    if ltb item ec_mbxpoolsize
    then (
      record pool {
        mbxemptylist = update pool.mbxemptylist pool.listhead item;
        listhead = next ec_mbxpoolsize pool.listhead;
        listcount = pool.listcount + 1;
      },
      1,
    )
    else (pool, 0)
