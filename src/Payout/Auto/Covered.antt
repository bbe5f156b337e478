-- ===== src/Payout/Auto/Covered.antt =====
-- What the auto-withdraw job keeps: it overdraws nobody, and the books of the withdrawals.
use mathlib.Core.Path.{subst}
use abr_out.Prelude.{
  ℕ, List, [], ◌∷◌, All, false, ◌==◌, ◌≡◌, refl, sym, ◌∙◌, inl, inr, arith, Bool-cases,
  Option-cases,
}
use abr_out.Prelude.Int.{ℤ, pos, ◌≤ℤ◌, ltb_ℤ, leb_ℤ}
use abr_out.Prelude.Keyed.{All-always}
use abr_out.Prelude.Rows.{exists_row, select}
use abr_out.Models.{Db, AutoWithdrawalConfig, WithdrawalRequest}
use abr_out.Outside.{World}
use abr_out.Wallet.{usd_of, commit, commit-some}
use abr_out.Payout.Client.{PayoutClient, PayoutSettings}
use abr_out.Payout.Create.{Result, ok, err, in_flight_of, create_withdrawal, quote_withdrawal}
use abr_out.Payout.Create.Checked.{create_withdrawal-IsDebited}
use abr_out.Payout.Process.Settled.{IsSettled}
use abr_out.Payout.Settlement.{create_withdrawal-IsSettled}
use abr_out.Payout.Auto.{
  triggered, with_run, gross_of, auto_request, record_run, after_creation, withdraw_gross,
  evaluate_config, evaluate_configs, auto_withdraw_once,
}

module _ (client : PayoutClient) (settings : PayoutSettings) (now : ℕ) (next_id : Db → ℕ)
    (token : Db → ℕ) (Q : AutoWithdrawalConfig → Type 0) (P : Db → Type 0)
    (autos : (db : Db) (rows : List AutoWithdrawalConfig)
      → P db
      → P (record db { auto_withdrawal_configs = rows }))
    (creates : (cfg : AutoWithdrawalConfig) (gross : ℤ) (db db' : Db) (wr : WithdrawalRequest)
      → Q cfg
      → create_withdrawal client settings now (next_id db) (token db) (auto_request cfg gross) db
        ≡ ok (db', wr)
      → P db
      → P db') where
  record_run-keeps :
      (cfg : AutoWithdrawalConfig) (db : Db) (wr : WithdrawalRequest) (w : World)
      → P db
      → P w.db
      → P (record_run now cfg db wr w).0.db
  unfolding record_run
  record_run-keeps cfg db wr w p q = elim (Option-cases (commit (with_run now cfg wr db))) [
    | inl failed ↦ rw (failed, record_run) q
    | inr (db', went) ↦
        rw (went, record_run)
          (subst P (sym (commit-some (with_run now cfg wr db) went).0) (autos db _ p))
  ]

  created-keeps :
      (cfg : AutoWithdrawalConfig) (gross : ℤ) (w : World) (o : Result (Db × WithdrawalRequest))
      → Q cfg
      → create_withdrawal client settings now
          (next_id w.db)
          (token w.db)
          (auto_request cfg gross)
          w.db
        ≡ o
      → P w.db
      → P (after_creation now cfg o w).0.db
  created-keeps cfg gross w (err e) q h p = p
  created-keeps cfg gross w (ok (db', wr)) q h p =
      record_run-keeps cfg db' wr w (creates cfg gross w.db db' wr q h p) p

  withdraw_gross-keeps :
      (cfg : AutoWithdrawalConfig) (gross : ℤ) (w : World)
      → Q cfg
      → P w.db
      → P (withdraw_gross client settings now next_id token cfg gross w).0.db
  unfolding withdraw_gross
  withdraw_gross-keeps cfg gross w q p =
      elim (Bool-cases (ltb_ℤ gross settings.withdrawal_min_usd)) [
        | inl small ↦ rw (small, withdraw_gross) p
        | inr enough ↦ elim (Bool-cases (leb_ℤ (quote_withdrawal client gross).net_usdt (pos 0))) [
          | inl eaten ↦ rw (enough, withdraw_gross) (rw eaten p)
          | inr left ↦ rw (enough, withdraw_gross) (rw left (created-keeps cfg gross w _ q refl p))
        ]
      ]

  evaluate_config-keeps :
      (cfg : AutoWithdrawalConfig) (w : World)
      → Q cfg
      → P w.db
      → P (evaluate_config client settings now next_id token cfg w).0.db
  unfolding evaluate_config
  evaluate_config-keeps cfg w q p =
      elim (Bool-cases (exists_row (in_flight_of cfg.user_id) w.db.withdrawal_requests)) [
        | inl busy ↦ rw (busy, evaluate_config) p
        | inr idle ↦ elim (Bool-cases (triggered settings now cfg (usd_of w.db cfg.user_id))) [
          | inr early ↦ rw (idle, evaluate_config) (rw early p)
          | inl due ↦ elim (Option-cases (gross_of cfg (usd_of w.db cfg.user_id))) [
            | inl unset ↦ rw (idle, evaluate_config) (rw due (rw unset p))
            | inr (gross, set) ↦
                rw (idle, evaluate_config) (rw due (rw set (withdraw_gross-keeps cfg gross w q p)))
          ]
        ]
      ]

  pub evaluate_configs-keeps :
      (cs : List AutoWithdrawalConfig) (w : World)
      → All Q cs
      → P w.db
      → P (evaluate_configs client settings now next_id token cs w).db
  unfolding evaluate_configs
  evaluate_configs-keeps [] w q p = p
  evaluate_configs-keeps (c ∷ cs) w q p =
      let (w', serves) = evaluate_config client settings now next_id token c w in
      let p' = evaluate_config-keeps c w q.0 p in
      elim (Bool-cases serves) [
        | inl goes_on ↦ rw goes_on (evaluate_configs-keeps cs w' q.1 p')
        | inr stops ↦ rw stops p'
      ]

  -- Without a condition on the rules.
  pub auto_withdraw-keeps :
      (w : World)
      → ((c : AutoWithdrawalConfig) → Q c)
      → P w.db
      → P (auto_withdraw_once client settings now next_id token w).db
  unfolding auto_withdraw_once
  auto_withdraw-keeps w q p =
      let cs = select (λ c. c.enabled) w.db.auto_withdrawal_configs in
      evaluate_configs-keeps cs w (All-always cs q) p

-- A run of the auto-withdraw job, whatever its rules say, leaves every user whose balance is zero or
-- more at zero or more.
pub auto_withdraw-covered :
    (client : PayoutClient) (settings : PayoutSettings) (now : ℕ) (next_id : Db → ℕ)
    (token : Db → ℕ) (user : ℕ) (w : World)
    → pos 0 ≤ℤ usd_of w.db user
    → pos 0 ≤ℤ usd_of (auto_withdraw_once client settings now next_id token w).db user
auto_withdraw-covered client settings now next_id token user w covered =
    auto_withdraw-keeps client settings now next_id token (λ c. Unit {0})
      (λ db. pos 0 ≤ℤ usd_of db user) (λ db rows p. p)
      (λ cfg gross db db' wr q h p.
        let r = auto_request cfg gross in
        let d = create_withdrawal-IsDebited client settings now (next_id db) (token db) r db h in
        elim (Bool-cases (user == r.user_id)) [
          | inl own ↦
              let e : user ≡ r.user_id = ground (arith, own) in
              subst (λ u. pos 0 ≤ℤ usd_of db' u) (sym e) d.never_negative
          | inr other ↦
              let same : usd_of db' user ≡ usd_of db user = d.debit user ∙ rw other refl in
              subst (λ b. pos 0 ≤ℤ b) (sym same) p
        ])
      w (λ c. tt) covered

-- A run of the auto-withdraw job keeps the ids of the requests distinct and, for every user, the
-- payouts and refunds in the ledger and the amounts of the requests that are not refunded at a sum
-- of zero, if the ids that the database hands out are new.
pub auto_withdraw-IsSettled :
    (client : PayoutClient) (settings : PayoutSettings) (now : ℕ) (next_id : Db → ℕ)
    (token : Db → ℕ) (w : World)
    → ((db : Db)
        → exists_row (λ (x : WithdrawalRequest). next_id db == x.id) db.withdrawal_requests ≡ false)
    → IsSettled w.db
    → IsSettled (auto_withdraw_once client settings now next_id token w).db
auto_withdraw-IsSettled client settings now next_id token w fresh settled =
    auto_withdraw-keeps client settings now next_id token (λ c. Unit {0}) IsSettled
      (λ db rows s. record { keyed = s.keyed; balanced = s.balanced })
      (λ cfg gross db db' wr q h s.
        create_withdrawal-IsSettled client settings now (next_id db) (token db)
          (auto_request cfg gross) db (fresh db) h s)
      w (λ c. tt) settled
