-- ===== src/Admin/Accounts.antt =====
-- What `add_user_transaction` of app/api/routes/admin.py does to the balances.
use mathlib.Core.Path.{subst}
use abr_out.Prelude.{ℕ, ◌==◌, ◌≡◌, refl, sym, inl, inr, arith, Option-cases, if◌then◌else◌}
use abr_out.Prelude.Int.{ℤ, ◌+ℤ◌}
use abr_out.Models.{Db, WalletTransaction, Currency}
use abr_out.Outside.{World}
use abr_out.Http.{Outcome, ok, fail}
use abr_out.Wallet.{usd_of, commit, commit-some}
use abr_out.Wallet.Balance.{get_balance-cons}
use abr_out.Admin.{
  TxBody, add_user_transaction, check_transaction, when_checked, store_transaction, add_transaction,
  admin_transaction,
}

-- What an admin's transaction does to the ledger.
pub record IsCorrected (user_id : ℕ) (amount : ℤ) (before after : Db) : Type 0 where
  pub moved :
      (v : ℕ)
      → usd_of after v ≡ (if v == user_id then amount +ℤ usd_of before v else usd_of before v)
  pub tables : after ≡ record before { wallet_transactions = after.wallet_transactions }

checked-row :
    (admin token user_id : ℕ) (body : TxBody) (db : Db) (t : WalletTransaction)
    → check_transaction admin token user_id body db ≡ ok t
    → t ≡ admin_transaction admin token user_id body
unfolding check_transaction
checked-row admin token user_id body db t h = ground (arith, h)

added :
    (admin token user_id : ℕ) (body : TxBody) (db : Db)
    → IsCorrected user_id body.amount db
        (add_transaction (admin_transaction admin token user_id body) db)
added admin token user_id body db = record {
  moved = λ v. ground (
    arith,
    get_balance-cons (admin_transaction admin token user_id body) db.wallet_transactions v
        Currency.usd,
  );
  tables = refl;
}

stored :
    (admin token user_id : ℕ) (body : TxBody) (t t' : WalletTransaction) (w : World)
    → t ≡ admin_transaction admin token user_id body
    → (store_transaction t body.note w).0 ≡ ok t'
    → IsCorrected user_id body.amount w.db (store_transaction t body.note w).1.db
unfolding store_transaction
stored admin token user_id body t t' w e h = elim (Option-cases (commit (add_transaction t w.db))) [
  | inl failed ↦ absurd (ground (arith, failed, h))
  | inr (db, went) ↦
      rw (went, store_transaction)
        (subst (IsCorrected user_id body.amount w.db)
          (sym (commit-some (add_transaction t w.db) went).0)
          (subst (λ x. IsCorrected user_id body.amount w.db (add_transaction x w.db)) (sym e)
            (added admin token user_id body w.db)))
]

dispatched :
    (admin token user_id : ℕ) (body : TxBody) (w : World) (o : Outcome WalletTransaction)
    (t' : WalletTransaction)
    → check_transaction admin token user_id body w.db ≡ o
    → (when_checked o body.note w).0 ≡ ok t'
    → IsCorrected user_id body.amount w.db (when_checked o body.note w).1.db
dispatched admin token user_id body w (fail e) t' checked h = cc
dispatched admin token user_id body w (ok t) t' checked h =
    stored admin token user_id body t t' w (checked-row admin token user_id body w.db t checked) h

-- A transaction that an admin enters moves the dollar balance of its user by its amount and no other
-- balance, and changes nothing but the ledger.
pub add_user_transaction-IsCorrected :
    (admin token user_id : ℕ) (body : TxBody) (w : World) {t : WalletTransaction}
    → (add_user_transaction admin token user_id body w).0 ≡ ok t
    → IsCorrected user_id body.amount w.db (add_user_transaction admin token user_id body w).1.db
unfolding add_user_transaction
add_user_transaction-IsCorrected admin token user_id body w {t} h =
    dispatched admin token user_id body w _ t refl h
