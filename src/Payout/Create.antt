-- ===== src/Payout/Create.antt =====
-- `quote_withdrawal` and `create_withdrawal` of app/common/payout/service.py. The advisory lock
-- makes the calls of one user run one after the other, so a call is one step on the tables. The id
-- of the new row, the random token of its key and the clock are arguments.
pub mod Checked
use abr_out.Prelude.{
  ℕ, ◌+◌, ◌*◌, List, ◌∷◌, Option, none, some, Bool, true, false, not, ◌&&◌, ◌==◌, leb, get_or,
  if◌then◌else◌,
}
use abr_out.Prelude.Int.{ℤ, pos, ◌+ℤ◌, ◌-ℤ◌, ltb_ℤ, leb_ℤ}
use abr_out.Prelude.Rows.{select, first_row, exists_row, sum_rows}
use abr_out.Models.{
  Db, User, WithdrawalRequest, WithdrawalStatus, WithdrawalSource, IdempotencyKey, Currency,
}
use abr_out.Wallet.{get_balance, debit_for_withdrawal}
use abr_out.Payout.Client.{
  PayoutClient, PayoutSettings, AddressCheck, checksummed, address_error, config_error,
}

-- `_NON_TERMINAL`
abbrev pub non_terminal : WithdrawalStatus → Bool
non_terminal WithdrawalStatus.pending = true
non_terminal WithdrawalStatus.submitting = true
non_terminal WithdrawalStatus.submitted = true
non_terminal _ = false

abbrev pub counts_as_spent : WithdrawalStatus → Bool
counts_as_spent WithdrawalStatus.failed = false
counts_as_spent WithdrawalStatus.refunded = false
counts_as_spent _ = true

-- `WithdrawalQuote`
pub record WithdrawalQuote : Type 0 where
  pub amount_usd : ℤ
  pub fee_usd : ℤ
  pub net_usdt : ℤ
  pub gas_price_wei : ℕ

unfoldable pub quote_withdrawal : PayoutClient → ℤ → WithdrawalQuote
quote_withdrawal client amount = record {
  amount_usd = amount;
  fee_usd = client.fee_usd;
  net_usdt = amount -ℤ client.fee_usd;
  gas_price_wei = client.gas_price_wei;
}

-- The texts of `WithdrawalError`, in the order of the checks.
pub data WithdrawalError : Type 0 where
  invalid_address service_unavailable not_positive below_minimum above_maximum : WithdrawalError
  unknown_user blocked_user in_flight : WithdrawalError
  over_daily_cap insufficient_balance fee_exceeds_amount : ℤ → WithdrawalError
  no_liquidity : WithdrawalError

pub data Result (A : Type 0) : Type 0 where
  ok : A → Result A
  err : WithdrawalError → Result A

infixl 5 ◌>>=◌ ◌>>◌
abbrev pub ◌>>=◌ : {A B : Type 0} → Result A → (A → Result B) → Result B
ok a >>= f = f a
err e >>= f = err e

abbrev pub ◌>>◌ : {B : Type 0} → Result (Unit {0}) → Result B → Result B
m >> k = m >>= λ _. k

-- `if c: raise e`
abbrev pub raise_if : Bool → WithdrawalError → Result (Unit {0})
raise_if true e = err e
raise_if false e = ok tt

abbrev pub checked_address : AddressCheck → Result ℕ
checked_address (checksummed a) = ok a
checked_address address_error = err WithdrawalError.invalid_address
checked_address config_error = err WithdrawalError.service_unavailable

abbrev pub active_user : Option User → Result (Unit {0})
active_user none = err WithdrawalError.unknown_user
active_user (some u) = raise_if u.is_blocked WithdrawalError.blocked_user

abbrev pub day : ℕ
day = 24 * 60 * 60 * 1_000_000

abbrev pub in_flight_of : ℕ → WithdrawalRequest → Bool
in_flight_of user w = w.user_id == user && non_terminal w.status

-- `created_at >= now - 24h`, without going below zero.
abbrev pub spent_since : ℕ → ℕ → WithdrawalRequest → Bool
spent_since user now w =
    w.user_id == user && leb now (w.created_at + day) && counts_as_spent w.status

unfoldable pub spent_24h : Db → ℕ → ℕ → ℤ
spent_24h db user now =
    sum_rows (λ w. w.amount_usd) (select (spent_since user now) db.withdrawal_requests)

-- The hot wallet is known to hold too little; a balance of zero is taken for unknown.
abbrev pub lacks_liquidity : PayoutClient → ℤ → Bool
lacks_liquidity client net =
    let hot : ℤ = get_or client.usdt_balance (pos 0) in ltb_ℤ (pos 0) hot && ltb_ℤ hot net

-- `max(x, Decimal(0))`
abbrev pub at_least_zero : ℤ → ℤ
at_least_zero x = if ltb_ℤ x (pos 0) then pos 0 else x

-- What the caller of `create_withdrawal` gives it.
pub record Request : Type 0 where
  pub user_id : ℕ
  pub amount_usd : ℤ
  pub to_address : ℕ
  pub source : WithdrawalSource

abbrev pub add_withdrawal : WithdrawalRequest → Db → Db
add_withdrawal w db = record db {
  withdrawal_requests = w ∷ db.withdrawal_requests;
  wallet_transactions = debit_for_withdrawal w ∷ db.wallet_transactions;
}

module _ (client : PayoutClient) (settings : PayoutSettings) (now id token : ℕ) where
  unfoldable pub new_withdrawal : Request → ℕ → WithdrawalQuote → WithdrawalRequest
  new_withdrawal r address quote = record {
    id = id;
    user_id = r.user_id;
    amount_usd = r.amount_usd;
    fee_usd = quote.fee_usd;
    net_usdt = quote.net_usdt;
    to_address = address;
    status = WithdrawalStatus.pending;
    source = r.source;
    tx_hash = none;
    error_msg = none;
    gas_price_wei = some quote.gas_price_wei;
    gas_used = none;
    idempotency_key = IdempotencyKey.withdraw_debit token;
    created_at = now;
    updated_at = now;
  }

  -- `create_withdrawal`
  unfoldable pub create_withdrawal : Request → Db → Result (Db × WithdrawalRequest)
  unfolding quote_withdrawal new_withdrawal
  create_withdrawal r db = do
    address ← checked_address (client.is_valid_address r.to_address)
    raise_if (leb_ℤ r.amount_usd (pos 0)) WithdrawalError.not_positive
    raise_if (ltb_ℤ r.amount_usd settings.withdrawal_min_usd) WithdrawalError.below_minimum
    raise_if (ltb_ℤ settings.withdrawal_max_usd r.amount_usd) WithdrawalError.above_maximum
    active_user (first_row (λ u. u.telegram_id == r.user_id) db.users)
    raise_if (exists_row (in_flight_of r.user_id) db.withdrawal_requests) WithdrawalError.in_flight
    let spent = spent_24h db r.user_id now
    raise_if (ltb_ℤ settings.withdrawal_max_usd_per_day (spent +ℤ r.amount_usd)) (
        WithdrawalError.over_daily_cap
          (at_least_zero (settings.withdrawal_max_usd_per_day -ℤ spent)))
    let balance = get_balance db.wallet_transactions r.user_id Currency.usd
    raise_if (ltb_ℤ balance r.amount_usd) (WithdrawalError.insufficient_balance balance)
    let quote = quote_withdrawal client r.amount_usd
    raise_if (leb_ℤ quote.net_usdt (pos 0)) (WithdrawalError.fee_exceeds_amount quote.fee_usd)
    raise_if (lacks_liquidity client quote.net_usdt) WithdrawalError.no_liquidity
    let w = new_withdrawal r address quote
    ok (add_withdrawal w db, w)
