-- ===== src/Payout/Auto.antt =====
-- app/worker/jobs/auto_withdraw.py. The ids of new requests come from the database and their tokens
-- from `secrets`: both are functions here. An exception of one config is caught by the loop, and the
-- rows stay as they were committed. After a refusal the code
-- rolls its session back, which expires the configs that it read, and a failed commit leaves the
-- session unusable: no config after that is evaluated. Log lines are left out.
pub mod Covered
use abr_out.Prelude.{
  ℕ, ◌+◌, ◌*◌, List, [], ◌∷◌, Option, none, some, Bool, true, false, not, ◌&&◌, ◌==◌, ltb, leb,
  if◌then◌else◌,
}
use abr_out.Prelude.Int.{ℤ, pos, ◌+ℤ◌, ltb_ℤ, leb_ℤ}
use abr_out.Prelude.Rows.{select, exists_row, update_rows}
use abr_out.Models.{
  Db, AutoWithdrawalConfig, AutoWithdrawMode, AutoWithdrawAmountPolicy, WithdrawalRequest,
  WithdrawalSource, Currency,
}
use abr_out.Outside.{World, Effect, Message, emit}
use abr_out.Wallet.{usd_of, get_balance, commit}
use abr_out.Payout.Client.{PayoutClient, PayoutSettings}
use abr_out.Payout.Create.{
  Request, Result, ok, err, in_flight_of, quote_withdrawal, create_withdrawal,
}

-- The cooldown has not passed, and the balance is below twice the threshold.
abbrev pub cools_down : PayoutSettings → ℕ → Option ℕ → ℤ → ℤ → Bool
cools_down settings now none threshold balance = false
cools_down settings now (some last) threshold balance =
    ltb now (last + settings.threshold_cooldown) && ltb_ℤ balance (threshold +ℤ threshold)

-- Trigger evaluation.
unfoldable pub triggered : PayoutSettings → ℕ → AutoWithdrawalConfig → ℤ → Bool
triggered settings now cfg balance = elim cfg.mode [
  | AutoWithdrawMode.time ↦ elim cfg.next_run_at [ none ↦ false | some next ↦ leb next now ]
  | AutoWithdrawMode.threshold ↦ elim cfg.threshold_usd [
    | none ↦ false
    | some t ↦ not (ltb_ℤ balance t) && not (cools_down settings now cfg.last_run_at t balance)
  ]
]

-- Amount policy.
unfoldable pub gross_of : AutoWithdrawalConfig → ℤ → Option ℤ
gross_of cfg balance = elim cfg.amount_policy [
  | AutoWithdrawAmountPolicy.full ↦ some balance
  | AutoWithdrawAmountPolicy.fixed ↦ elim cfg.fixed_amount_usd [
    | none ↦ none
    | some f ↦ if ltb_ℤ balance f then none else some f
  ]
]

abbrev pub hour : ℕ
hour = 60 * 60 * 1_000_000

-- `cfg.mode is time and cfg.interval_hours`
abbrev pub next_run : ℕ → AutoWithdrawMode → Option ℕ → Option ℕ → Option ℕ
next_run now AutoWithdrawMode.time (some hours) next =
    if hours == 0 then next else some (now + hours * hour)
next_run now AutoWithdrawMode.time none next = next
next_run now AutoWithdrawMode.threshold hours next = next

abbrev pub mark_run : ℕ → ℕ → AutoWithdrawalConfig → AutoWithdrawalConfig
mark_run now id cfg = record cfg {
  last_run_at = some now;
  last_withdrawal_id = some id;
  next_run_at = next_run now cfg.mode cfg.interval_hours cfg.next_run_at;
}

abbrev pub auto_request : AutoWithdrawalConfig → ℤ → Request
auto_request cfg gross = record {
  user_id = cfg.user_id;
  amount_usd = gross;
  to_address = cfg.to_address;
  source = WithdrawalSource.auto;
}

abbrev pub with_run : ℕ → AutoWithdrawalConfig → WithdrawalRequest → Db → Db
with_run now cfg wr db = record db {
  auto_withdrawal_configs =
      update_rows (λ c. c.user_id == cfg.user_id) (mark_run now wr.id) db.auto_withdrawal_configs;
}

-- With whether the session still serves: after a failed commit it does not.
unfoldable pub record_run : ℕ → AutoWithdrawalConfig → Db → WithdrawalRequest → World → World × Bool
record_run now cfg db wr w = elim (commit (with_run now cfg wr db)) [
  | none ↦ (w, false)
  | some db' ↦
      (emit (Effect.message cfg.user_id Message.auto_withdrawal) (record w { db = db' }), true)
]

-- `except WithdrawalError`: no state change, but the rollback expires the configs that were read.
abbrev pub after_creation :
    ℕ → AutoWithdrawalConfig → Result (Db × WithdrawalRequest) → World → World × Bool
after_creation now cfg (err e) w = (w, false)
after_creation now cfg (ok (db, wr)) w = record_run now cfg db wr w

module _ (client : PayoutClient) (settings : PayoutSettings) (now : ℕ) (next_id : Db → ℕ)
    (token : Db → ℕ) where
  unfoldable pub withdraw_gross : AutoWithdrawalConfig → ℤ → World → World × Bool
  withdraw_gross cfg gross w =
      if ltb_ℤ gross settings.withdrawal_min_usd
      then (w, true)
      else if leb_ℤ (quote_withdrawal client gross).net_usdt (pos 0)
      then (w, true)
      else after_creation now cfg
          (create_withdrawal client settings now (next_id w.db) (token w.db)
            (auto_request cfg gross) w.db)
          w

  -- `_evaluate_config`
  unfoldable pub evaluate_config : AutoWithdrawalConfig → World → World × Bool
  evaluate_config cfg w =
      let balance = usd_of w.db cfg.user_id in
      if exists_row (in_flight_of cfg.user_id) w.db.withdrawal_requests
      then (w, true)
      else if not (triggered settings now cfg balance)
      then (w, true)
      else elim (gross_of cfg balance) [
        | none ↦ (w, true)
        | some gross ↦ withdraw_gross cfg gross w
      ]

  -- Where the session no longer serves, the next config raises, and so does the log line that
  -- catches it: the loop is left.
  unfoldable pub evaluate_configs : List AutoWithdrawalConfig → World → World
  evaluate_configs [] w = w
  evaluate_configs (c ∷ cs) w =
      let (w', serves) = evaluate_config c w in
      let rest = evaluate_configs cs w' in if serves then rest else w'

  -- `auto_withdraw_once`
  unfoldable pub auto_withdraw_once : World → World
  auto_withdraw_once w = evaluate_configs (select (λ c. c.enabled) w.db.auto_withdrawal_configs) w
