-- ===== src/Payout/Create/Checked.antt =====
-- What a withdrawal that is created has passed, and what it does to the tables.
use abr_out.Prelude.{
  ℕ, List, [], ◌∷◌, Bool, true, false, ◌≡◌, ◌≢◌, refl, inl, inr, Bool-cases, ◌==◌, if◌then◌else◌,
  arith,
}
use abr_out.Prelude.Int.{ℤ, pos, neg, ◌+ℤ◌, ◌-ℤ◌, ◌≤ℤ◌, int_laws}
use abr_out.Prelude.Rows.{select, sum_rows, exists_row}
use abr_out.Models.{Db, WalletTransaction, WithdrawalRequest, WithdrawalStatus, Currency}
use abr_out.Wallet.{usd_of, get_balance, debit_for_withdrawal}
use abr_out.Wallet.Balance.{get_balance-cons}
use abr_out.Payout.Client.{PayoutClient, PayoutSettings}
use abr_out.Payout.Create.{
  Request, ok, create_withdrawal, new_withdrawal, quote_withdrawal, spent_24h, spent_since,
  in_flight_of, add_withdrawal,
}

module _ (client : PayoutClient) (settings : PayoutSettings) (now id token : ℕ) (r : Request)
    (db : Db) where
  -- A row that `create_withdrawal` may return.
  pub record IsGranted (db' : Db) (w : WithdrawalRequest) : Type 0 where
    pub staged : db' ≡ add_withdrawal w db
    pub mine : w.user_id ≡ r.user_id
    pub gross : w.amount_usd ≡ r.amount_usd
    pub numbered : w.id ≡ id
    pub created : w.created_at ≡ now
    pub waits : w.status ≡ WithdrawalStatus.pending
    pub positive : pos 1 ≤ℤ r.amount_usd
    pub net : w.net_usdt ≡ r.amount_usd -ℤ w.fee_usd
    pub net_positive : pos 1 ≤ℤ w.net_usdt
    pub at_least : settings.withdrawal_min_usd ≤ℤ r.amount_usd
    pub at_most : r.amount_usd ≤ℤ settings.withdrawal_max_usd
    pub alone : exists_row (in_flight_of r.user_id) db.withdrawal_requests ≡ false
    pub daily : spent_24h db r.user_id now +ℤ r.amount_usd ≤ℤ settings.withdrawal_max_usd_per_day
    pub covered : r.amount_usd ≤ℤ usd_of db r.user_id

  pub create_withdrawal-IsGranted :
      {db' : Db} {w : WithdrawalRequest}
      → create_withdrawal client settings now id token r db ≡ ok (db', w)
      → IsGranted db' w
  unfolding create_withdrawal new_withdrawal quote_withdrawal
  create_withdrawal-IsGranted h = ground arith

select-none :
    (p : WithdrawalRequest → Bool) (ws : List WithdrawalRequest)
    → exists_row p ws ≡ false
    → select p ws ≡ []
unfolding select exists_row
select-none p [] h = refl
select-none p (w ∷ ws) h = ground (arith, select-none p ws)

debit_self :
    (w : WithdrawalRequest) (ledger : List WalletTransaction) (user : ℕ) (amount : ℤ)
    → w.user_id ≡ user
    → w.amount_usd ≡ amount
    → get_balance (debit_for_withdrawal w ∷ ledger) user Currency.usd
      ≡ neg amount +ℤ get_balance ledger user Currency.usd
unfolding debit_for_withdrawal
debit_self w ledger user amount e e' =
    ground (arith, get_balance-cons (debit_for_withdrawal w) ledger user Currency.usd)

debit_other :
    (w : WithdrawalRequest) (ledger : List WalletTransaction) (user : ℕ)
    → user ≢ w.user_id
    → get_balance (debit_for_withdrawal w ∷ ledger) user Currency.usd
      ≡ get_balance ledger user Currency.usd
unfolding debit_for_withdrawal
debit_other w ledger user ne =
    ground (arith, get_balance-cons (debit_for_withdrawal w) ledger user Currency.usd)

-- What the new row does to the tables.
pub record IsDebited (settings : PayoutSettings) (now user : ℕ) (amount : ℤ) (db db' : Db)
    (w : WithdrawalRequest) : Type 0 where
  pub debit : (v : ℕ) → usd_of db' v ≡ (if v == user then usd_of db v -ℤ amount else usd_of db v)
  pub never_negative : pos 0 ≤ℤ usd_of db' user
  pub only_one : select (in_flight_of user) db'.withdrawal_requests ≡ w ∷ []
  pub within_cap : spent_24h db' user now ≤ℤ settings.withdrawal_max_usd_per_day

-- A withdrawal that is created debits its user by the gross amount and nobody else. The balance of
-- the user stays at zero or above, the new row is the user's only one in flight, and the sum of the
-- last 24 hours, the new row included, is within the daily cap.
pub create_withdrawal-IsDebited :
    (client : PayoutClient) (settings : PayoutSettings) (now id token : ℕ) (r : Request) (db : Db)
    {db' : Db} {w : WithdrawalRequest}
    → create_withdrawal client settings now id token r db ≡ ok (db', w)
    → IsDebited settings now r.user_id r.amount_usd db db' w
unfolding spent_24h select sum_rows
create_withdrawal-IsDebited client settings now id token r db {db'} {w} h =
    let g = create_withdrawal-IsGranted client settings now id token r db h in
    let self = debit_self w db.wallet_transactions r.user_id r.amount_usd g.mine g.gross in
    let counted : spent_since r.user_id now w ≡ true = ground (arith, g.mine, g.created, g.waits) in
    record {
      debit = λ v. rw g.staged (elim (Bool-cases (v == r.user_id)) [
        | inl own ↦
            let e : v ≡ r.user_id = ground (arith, own) in
            let self_v =
              debit_self w db.wallet_transactions v r.amount_usd (ground (arith, e, g.mine))
                g.gross in
            rw (own, self_v) (omega int_laws)
        | inr other ↦
            rw other (debit_other w db.wallet_transactions v (ground (arith, other, g.mine)))
      ]);
      never_negative = rw g.staged (rw self (omega (int_laws, g.covered)));
      only_one = rw g.staged (
          ground (
            arith,
            g.mine,
            g.waits,
            select-none (in_flight_of r.user_id) db.withdrawal_requests g.alone,
          ));
      within_cap = rw g.staged (rw (counted, g.gross) (omega (int_laws, g.daily)));
    }
