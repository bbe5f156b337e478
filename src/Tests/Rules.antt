-- ===== src/Tests/Rules.antt =====
-- Rules for automatic withdrawals, and the pages of past ones.
use abr_out.Prelude.{ℕ, ◌+◌, ◌*◌, [], ◌∷◌, none, some, true, false, ◌==◌, ◌≡◌, refl}
use abr_out.Prelude.Int.{pos}
use abr_out.Prelude.Rows.{exists_row, update_rows}
use abr_out.Models.{Db, AutoWithdrawalConfig, AutoWithdrawMode, AutoWithdrawAmountPolicy}
use abr_out.Http.{ok}
use abr_out.Payout.Auto.{hour, auto_withdraw_once}
use abr_out.Withdrawals.{
  AutoWithdrawIn, put_auto_config, disable_auto_config, get_auto_config, rule_row, upsert,
  with_rules,
}
use abr_out.Withdrawals.Rules.{IsRule, put_auto_config-IsRule}
use abr_out.Withdrawals.Stopped.{IsUntouched, disable_auto_config-IsUntouched}
use abr_out.Tests.Withdrawals.{client, settings, ruled, next_id, token}

-- Twenty dollars each day.
abbrev daily : AutoWithdrawIn
daily = record {
  enabled = true;
  mode = AutoWithdrawMode.time;
  interval_hours = some 24;
  threshold_usd = none;
  amount_policy = AutoWithdrawAmountPolicy.fixed;
  fixed_amount_usd = some (pos 2_000_000_000);
  to_address = 4;
}

abbrev daily_row : AutoWithdrawalConfig
daily_row = record {
  user_id = 10;
  enabled = true;
  mode = AutoWithdrawMode.time;
  interval_hours = some 24;
  threshold_usd = none;
  amount_policy = AutoWithdrawAmountPolicy.fixed;
  fixed_amount_usd = some (pos 2_000_000_000);
  to_address = 4;
  next_run_at = some (100 + 24 * hour);
  last_run_at = none;
  last_withdrawal_id = none;
}

abbrev with_daily : Db
with_daily = with_rules (daily_row ∷ []) ruled.db

saved : put_auto_config client settings 100 10 daily ruled.db ≡ ok with_daily
unfolding put_auto_config rule_row upsert exists_row update_rows
saved = refl

put_auto_config-IsRule_example :
    ((row : AutoWithdrawalConfig) × (get_auto_config 10 with_daily ≡ some row)
      × IsRule client settings 100 10 daily row)
    × ((other : ℕ)
        → (other == 10) ≡ false
        → get_auto_config other with_daily ≡ get_auto_config other ruled.db)
put_auto_config-IsRule_example = put_auto_config-IsRule client settings 100 10 daily ruled.db saved

disable_auto_config-IsUntouched_example :
    IsUntouched 10
      (disable_auto_config 10 ruled.db)
      (auto_withdraw_once client settings 100 next_id token
        (record ruled { db = disable_auto_config 10 ruled.db })).db
disable_auto_config-IsUntouched_example =
    disable_auto_config-IsUntouched client settings 100 next_id token 10 ruled
