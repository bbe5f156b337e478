-- ===== src/Withdrawals/Walked.antt =====
-- The pages of `list_withdrawals` of app/api/routes/withdrawals.py.
use mathlib.Core.List.{Perm}
use abr_out.Prelude.{ℕ, ◌*◌, ◌≤◌, arith}
use abr_out.Prelude.Rows.{select}
use abr_out.Prelude.Pages.{
  order_by, first_pages, first_pages-take, take_all, order_by-perm, order_by-length,
}
use abr_out.Models.{Db}
use abr_out.Withdrawals.{list_withdrawals, is_own, newer}

-- A user who reads the pages of his withdrawals one after the other, until they reach the total that
-- each page states, has read each of his own withdrawals as often as it stands in the table, and no
-- other.
pub list_withdrawals-walked :
    (user size n : ℕ) (db : Db)
    → (list_withdrawals user 1 size db).total ≤ n * size
    → Perm
        (first_pages (λ page. (list_withdrawals user page size db).items) n)
        (select (is_own user) db.withdrawal_requests)
unfolding list_withdrawals
list_withdrawals-walked user size n db enough =
    let own = order_by newer (select (is_own user) db.withdrawal_requests) in
    let read =
      take_all (n * size) own
        (omega (arith, order_by-length newer (select (is_own user) db.withdrawal_requests))) in
    rw (first_pages-take n size own, read)
      (order_by-perm newer (select (is_own user) db.withdrawal_requests))
