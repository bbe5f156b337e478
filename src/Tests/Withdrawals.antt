-- ===== src/Tests/Withdrawals.antt =====
-- Withdrawals of the seller of the sample: one submitted, one confirmed before.
use abr_out.Prelude.{◌+◌, map, true, arith}
use abr_out.Outside.{World}
use abr_out.Prelude.Int.{◌≤ℤ◌, neg}
use abr_out.Prelude.Rows.{total_rows}
use abr_out.Models.{AutoWithdrawalConfig, AutoWithdrawMode, AutoWithdrawAmountPolicy}
use abr_out.Payout.Auto.{
  auto_withdraw_once, evaluate_configs, evaluate_config, triggered, gross_of, withdraw_gross,
  record_run,
}
use abr_out.Wallet.{usd_of, commit, satisfies_constraints}
use abr_out.Prelude.Rows.{update_rows}
use abr_out.Payout.Auto.Covered.{auto_withdraw-covered}
use abr_out.Prelude.{
  ℕ, [], ◌∷◌, none, some, false, ◌==◌, ◌≡◌, refl, inl, inr, Bool-cases, if◌then◌else◌,
}
use abr_out.Prelude.Int.{pos, ◌+ℤ◌, ◌-ℤ◌, int_laws}
use abr_out.Prelude.Rows.{first_row, exists_row, unique_on, sum_rows, select}
use abr_out.Models.{Db, WithdrawalRequest, WithdrawalStatus, WithdrawalSource, IdempotencyKey}
use abr_out.Wallet.{get_balance, debit_for_withdrawal}
use abr_out.Payout.Client.{PayoutClient, PayoutSettings, AddressCheck, Signing}
use abr_out.Payout.Create.{
  Request, ok, create_withdrawal, new_withdrawal, quote_withdrawal, add_withdrawal, spent_24h,
}
use abr_out.Payout.Create.Checked.{IsDebited, create_withdrawal-IsDebited}
use abr_out.Payout.Process.{world, row_of, process_withdrawals_once}
use abr_out.Payout.Process.Run.{IsKeyed}
use abr_out.Payout.Process.Settled.{IsSettled}
use abr_out.Payout.Process.Final.{IsWaiting, process_withdrawals-IsWaiting}
use abr_out.Payout.Settlement.{process_withdrawals-IsSettled}
use abr_out.Tests.Sample.{market, world_of}

-- Transaction 77 has no receipt and is unknown, every other one is mined.
abbrev pub client : PayoutClient
client = record {
  is_valid_address = λ a. AddressCheck.checksummed a;
  fee_usd = pos 50_000_000;
  gas_price_wei = 3;
  usdt_balance = none;
  sign_transfer =
      λ id to amount gas. Signing.signed record { tx_hash = 78; raw_tx = 1; gas_price_wei = 3 };
  get_receipt = λ hash. if hash == 77 then none else some record { status = 1; gas_used = some 5 };
  get_transaction = λ hash. false;
}

abbrev pub settings : PayoutSettings
settings = record {
  withdrawal_min_usd = pos 500_000_000;
  withdrawal_max_usd = pos 100_000_000_000;
  withdrawal_max_usd_per_day = pos 200_000_000_000;
  submitting_recovery = 10;
  submitted_alert = 10;
  threshold_cooldown = 10;
}

abbrev request : ℕ → WithdrawalStatus → ℕ → WithdrawalRequest
request id status hash = record {
  id = id;
  user_id = 10;
  amount_usd = pos 600_000_000;
  fee_usd = pos 50_000_000;
  net_usdt = pos 550_000_000;
  to_address = 4;
  status = status;
  source = WithdrawalSource.manual;
  tx_hash = some hash;
  error_msg = none;
  gas_price_wei = some 3;
  gas_used = none;
  idempotency_key = IdempotencyKey.withdraw_debit id;
  created_at = 0;
  updated_at = 0;
}

abbrev waiting : WithdrawalRequest
waiting = request 2 WithdrawalStatus.submitted 77

abbrev paid_out : WithdrawalRequest
paid_out = request 1 WithdrawalStatus.confirmed 76

abbrev pub payouts : Db
payouts = record market {
  withdrawal_requests = waiting ∷ paid_out ∷ [];
  wallet_transactions = debit_for_withdrawal waiting ∷ debit_for_withdrawal paid_out ∷ [];
}

ids : IsKeyed payouts
unfolding unique_on exists_row
ids = refl

payouts-IsSettled : IsSettled payouts
unfolding sum_rows debit_for_withdrawal
payouts-IsSettled = record {
  keyed = ids;
  balanced = λ user. elim (Bool-cases (10 == user)) [
    | inl own ↦ rw own (omega int_laws)
    | inr other ↦ rw other (omega int_laws)
  ];
}

process_withdrawals-IsSettled_example :
    IsSettled (world (process_withdrawals_once client settings 100 (world_of payouts))).db
process_withdrawals-IsSettled_example =
    process_withdrawals-IsSettled client settings 100 (world_of payouts) payouts-IsSettled

row_waiting : row_of 2 payouts ≡ some waiting
unfolding first_row
row_waiting = refl

row_paid_out : row_of 1 payouts ≡ some paid_out
unfolding first_row
row_paid_out = refl

process_withdrawals-IsWaiting_example :
    (w : WithdrawalRequest) × (row_of 2
        (world (process_withdrawals_once client settings 100 (world_of payouts))).db
      ≡ some w)
    × IsWaiting 77 w
process_withdrawals-IsWaiting_example =
    process_withdrawals-IsWaiting client settings 100 2 77 waiting (world_of payouts) ids
      row_waiting record { submitted = refl; sent = refl } refl

-- The seller of the sample asks for six dollars.
abbrev ask : Request
ask = record {
  user_id = 10;
  amount_usd = pos 600_000_000;
  to_address = 4;
  source = WithdrawalSource.manual;
}

abbrev created : WithdrawalRequest
created = record (request 1 WithdrawalStatus.pending 0) {
  tx_hash = none;
  idempotency_key = IdempotencyKey.withdraw_debit 8;
  created_at = 100;
  updated_at = 100;
}

goes_through :
    create_withdrawal client settings 100 1 8 ask market
    ≡ ok (add_withdrawal created market, created)
unfolding create_withdrawal new_withdrawal quote_withdrawal spent_24h get_balance first_row
    exists_row select sum_rows ◌+ℤ◌ ◌-ℤ◌
goes_through = refl

create_withdrawal-IsDebited_example :
    IsDebited settings 100 10 (pos 600_000_000) market (add_withdrawal created market) created
create_withdrawal-IsDebited_example =
    create_withdrawal-IsDebited client settings 100 1 8 ask market goes_through

market-IsSettled : IsSettled market
unfolding sum_rows unique_on ◌+ℤ◌
market-IsSettled = record {
  keyed = refl;
  balanced = λ user. elim (Bool-cases (20 == user)) [
    | inl own ↦ elim (Bool-cases (10 == user)) [
      | inl own' ↦ rw (own, own') refl
      | inr other' ↦ rw (own, other') refl
    ]
    | inr other ↦ elim (Bool-cases (10 == user)) [
      | inl own' ↦ rw (other, own') refl
      | inr other' ↦ rw (other, other') refl
    ]
  ];
}

-- The seller withdraws everything above forty dollars by itself.
abbrev rule : AutoWithdrawalConfig
rule = record {
  user_id = 10;
  enabled = true;
  mode = AutoWithdrawMode.threshold;
  interval_hours = none;
  threshold_usd = some (pos 4_000_000_000);
  amount_policy = AutoWithdrawAmountPolicy.full;
  fixed_amount_usd = none;
  to_address = 4;
  next_run_at = none;
  last_run_at = none;
  last_withdrawal_id = none;
}

abbrev pub ruled : World
ruled = world_of (record market { auto_withdrawal_configs = rule ∷ [] })

-- More than every id in use.
abbrev pub next_id : Db → ℕ
next_id db = 1 + total_rows (λ (x : WithdrawalRequest). x.id) db.withdrawal_requests

abbrev pub token : Db → ℕ
token db = 8

auto_creates_one :
    map
      (λ x. x.amount_usd)
      (auto_withdraw_once client settings 100 next_id token ruled).db.withdrawal_requests
    ≡ pos 5_000_000_000 ∷ []
unfolding auto_withdraw_once evaluate_configs select evaluate_config exists_row triggered
    get_balance sum_rows ◌+ℤ◌ gross_of withdraw_gross quote_withdrawal ◌-ℤ◌ create_withdrawal
    first_row spent_24h record_run commit new_withdrawal neg unique_on update_rows
    debit_for_withdrawal satisfies_constraints
auto_creates_one = refl

seller_has_money : pos 0 ≤ℤ usd_of ruled.db 10
unfolding get_balance select sum_rows ◌+ℤ◌
seller_has_money = omega arith

auto_withdraw-covered_example :
    pos 0 ≤ℤ usd_of (auto_withdraw_once client settings 100 next_id token ruled).db 10
auto_withdraw-covered_example =
    auto_withdraw-covered client settings 100 next_id token 10 ruled seller_has_money
