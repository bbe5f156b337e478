-- ===== src/Withdrawals/Stopped.antt =====
-- A rule that `disable_auto_config` of app/api/routes/withdrawals.py has switched off, and the job of
-- app/worker/jobs/auto_withdraw.py.
use abr_out.Prelude.{
  ℕ, List, [], ◌∷◌, All, false, ◌==◌, ◌≡◌, refl, ◌∙◌, inl, inr, arith, Bool-cases,
}
use abr_out.Prelude.Int.{ℤ}
use abr_out.Prelude.Rows.{select, update_rows}
use abr_out.Models.{Db, AutoWithdrawalConfig, WithdrawalRequest}
use abr_out.Outside.{World}
use abr_out.Wallet.{usd_of}
use abr_out.Payout.Client.{PayoutClient, PayoutSettings}
use abr_out.Payout.Create.{ok, create_withdrawal}
use abr_out.Payout.Create.Checked.{create_withdrawal-IsGranted, create_withdrawal-IsDebited}
use abr_out.Payout.Auto.{auto_request, auto_withdraw_once}
use abr_out.Payout.Auto.Covered.{evaluate_configs-keeps}
use abr_out.Withdrawals.{disable_auto_config, switched_off, rule_of, is_own}

-- What a user has withdrawn and still holds stays the same between two states of the tables.
pub record IsUntouched (user : ℕ) (before after : Db) : Type 0 where
  pub requests :
      select (is_own user) after.withdrawal_requests
      ≡ select (is_own user) before.withdrawal_requests
  pub balance : usd_of after user ≡ usd_of before user

off_for :
    (user : ℕ) (rows : List AutoWithdrawalConfig)
    → All
        (λ c. (user == c.user_id) ≡ false)
        (select (λ c. c.enabled) (update_rows (rule_of user) switched_off rows))
unfolding select update_rows
off_for user [] = tt
off_for user (c ∷ rows) = elim (Bool-cases (c.user_id == user)) [
  | inl own ↦ rw own (off_for user rows)
  | inr other ↦ rw other (elim (Bool-cases c.enabled) [
    | inl on ↦ rw on (ground (arith, other), off_for user rows)
    | inr off ↦ rw off (off_for user rows)
  ])
]

module _ (client : PayoutClient) (settings : PayoutSettings) (now id token user : ℕ)
    (before : Db) where
  created-IsUntouched :
      (cfg : AutoWithdrawalConfig) (gross : ℤ) (db db' : Db) (w : WithdrawalRequest)
      → (user == cfg.user_id) ≡ false
      → create_withdrawal client settings now id token (auto_request cfg gross) db ≡ ok (db', w)
      → IsUntouched user before db
      → IsUntouched user before db'
  unfolding select
  created-IsUntouched cfg gross db db' w other h u =
      let r = auto_request cfg gross in
      let g = create_withdrawal-IsGranted client settings now id token r db h in
      let d = create_withdrawal-IsDebited client settings now id token r db h in
      let foreign : (w.user_id == user) ≡ false = ground (arith, g.mine, other) in
      record {
        requests = rw g.staged (rw foreign u.requests);
        balance = d.debit user ∙ rw other u.balance;
      }

-- Once a user has switched off automatic withdrawals, a run of the job creates no withdrawal of his
-- and leaves his balance as it is, whatever the rules of others say.
pub disable_auto_config-IsUntouched :
    (client : PayoutClient) (settings : PayoutSettings) (now : ℕ) (next_id token : Db → ℕ)
    (user : ℕ) (w : World)
    → let off = disable_auto_config user w.db in
      IsUntouched user off
        (auto_withdraw_once client settings now next_id token (record w { db = off })).db
unfolding auto_withdraw_once disable_auto_config
disable_auto_config-IsUntouched client settings now next_id token user w =
    let off = disable_auto_config user w.db in
    evaluate_configs-keeps client settings now next_id token (λ c. (user == c.user_id) ≡ false)
      (IsUntouched user off) (λ db rows u. record { requests = u.requests; balance = u.balance })
      (λ cfg gross db db' wr q h u.
        created-IsUntouched client settings now (next_id db) (token db) user off cfg gross db db' wr
          q h u)
      _ _ (off_for user w.db.auto_withdrawal_configs) record { requests = refl; balance = refl }
