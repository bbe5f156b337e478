-- ===== src/Withdrawals.antt =====
-- app/api/routes/withdrawals.py. A request that raises leaves the tables as they were; the user is
-- the one that `current_user` let in. The quote route is `quote_withdrawal` itself, and an answer
-- is the row that `_serialise` prints.
pub mod Rules
pub mod Stopped
pub mod Walked
use abr_out.Prelude.{
  ℕ, ◌+◌, ◌*◌, List, ◌∷◌, Option, none, some, Bool, true, false, not, ◌&&◌, ◌||◌, ◌==◌, leb, ltb,
  if◌then◌else◌, length,
}
use abr_out.Prelude.Int.{ℤ, pos, ltb_ℤ, leb_ℤ}
use abr_out.Prelude.Rows.{select, first_row, exists_row, update_rows}
use abr_out.Prelude.Pages.{order_by, page_of}
use abr_out.Models.{
  Db, WithdrawalRequest, WithdrawalSource, AutoWithdrawalConfig, AutoWithdrawMode,
  AutoWithdrawAmountPolicy,
}
use abr_out.Http.{HttpError, Outcome, ok, fail, ◌>>=◌, ◌>>◌, raise_if}
use abr_out.Payout.Client.{
  PayoutClient, PayoutSettings, AddressCheck, checksummed, address_error, config_error,
}
use abr_out.Payout.Create.{WithdrawalError, Request, Result, create_withdrawal}
use abr_out.Payout.Auto.{hour}

-- `WithdrawalIn`
pub record WithdrawalIn : Type 0 where
  pub amount_usd : ℤ
  pub to_address : ℕ

-- `WithdrawalsPage`, `total` being the count over all pages.
pub record WithdrawalsPage : Type 0 where
  pub items : List WithdrawalRequest
  pub total : ℕ
  pub page : ℕ
  pub size : ℕ

-- `AutoWithdrawIn`
pub record AutoWithdrawIn : Type 0 where
  pub enabled : Bool
  pub mode : AutoWithdrawMode
  pub interval_hours : Option ℕ
  pub threshold_usd : Option ℤ
  pub amount_policy : AutoWithdrawAmountPolicy
  pub fixed_amount_usd : Option ℤ
  pub to_address : ℕ

-- The WithdrawalError that the service raises is a 400 with its text.
abbrev pub answered : Result (Db × WithdrawalRequest) → Outcome (Db × WithdrawalRequest)
answered (Result.ok r) = ok r
answered (Result.err e) = fail (HttpError.withdrawal_refused e)

abbrev pub manual_request : ℕ → WithdrawalIn → Request
manual_request user body = record {
  user_id = user;
  amount_usd = body.amount_usd;
  to_address = body.to_address;
  source = WithdrawalSource.manual;
}

-- `post_withdrawal`; `Field(gt=0)` is checked before the route runs.
unfoldable pub post_withdrawal :
    PayoutClient
    → PayoutSettings
    → ℕ
    → ℕ
    → ℕ
    → ℕ
    → WithdrawalIn
    → Db
    → Outcome (Db × WithdrawalRequest)
post_withdrawal client settings now id token user body db = do
  raise_if (leb_ℤ body.amount_usd (pos 0)) HttpError.invalid_body
  answered (create_withdrawal client settings now id token (manual_request user body) db)

abbrev pub is_own : ℕ → WithdrawalRequest → Bool
is_own user w = w.user_id == user

-- `created_at.desc(), id.desc()`
abbrev pub newer : WithdrawalRequest → WithdrawalRequest → Bool
newer a b = ltb b.created_at a.created_at || (a.created_at == b.created_at && ltb b.id a.id)

-- `list_withdrawals`; the page and size are at least one.
unfoldable pub list_withdrawals : ℕ → ℕ → ℕ → Db → WithdrawalsPage
list_withdrawals user page size db =
    let base = select (is_own user) db.withdrawal_requests in
    record {
      items = page_of page size (order_by newer base);
      total = length base;
      page = page;
      size = size;
    }

abbrev pub own_or_404 : ℕ → Option WithdrawalRequest → Outcome WithdrawalRequest
own_or_404 user none = fail HttpError.withdrawal_not_found
own_or_404 user (some w) =
    if not (w.user_id == user) then fail HttpError.withdrawal_not_found else ok w

-- `get_withdrawal`
unfoldable pub get_withdrawal : ℕ → ℕ → Db → Outcome WithdrawalRequest
get_withdrawal user wid db = own_or_404 user (first_row (λ w. w.id == wid) db.withdrawal_requests)

abbrev pub rule_of : ℕ → AutoWithdrawalConfig → Bool
rule_of user c = c.user_id == user

-- `get_auto_config`
unfoldable pub get_auto_config : ℕ → Db → Option AutoWithdrawalConfig
get_auto_config user db = first_row (rule_of user) db.auto_withdrawal_configs

-- `Field(default=None, ge=1, le=24 * 30)`
abbrev pub is_interval : Option ℕ → Bool
is_interval none = true
is_interval (some h) = leb 1 h && leb h (24 * 30)

-- `if not body.interval_hours or body.interval_hours < 1`
abbrev pub checked_interval : Option ℕ → Outcome ℕ
checked_interval none = fail HttpError.interval_required
checked_interval (some h) = if h == 0 then fail HttpError.interval_required else ok h

abbrev pub at_least : ℤ → HttpError → Option ℤ → Outcome ℤ
at_least least error none = fail error
at_least least error (some x) = if ltb_ℤ x least then fail error else ok x

abbrev pub on_time : ℕ → Outcome (Option ℕ × Option ℤ)
on_time h = ok (some h, none)

abbrev pub on_threshold : ℤ → Outcome (Option ℕ × Option ℤ)
on_threshold t = ok (none, some t)

-- The interval and the threshold that are stored.
abbrev pub mode_columns : ℤ → AutoWithdrawMode → AutoWithdrawIn → Outcome (Option ℕ × Option ℤ)
mode_columns least AutoWithdrawMode.time body = checked_interval body.interval_hours >>= on_time
mode_columns least AutoWithdrawMode.threshold body =
    at_least least HttpError.threshold_too_low body.threshold_usd >>= on_threshold

abbrev pub fixed_column : ℤ → AutoWithdrawAmountPolicy → AutoWithdrawIn → Outcome (Option ℤ)
fixed_column least AutoWithdrawAmountPolicy.fixed body =
    at_least least HttpError.fixed_amount_too_low body.fixed_amount_usd >>= λ f. ok (some f)
fixed_column least AutoWithdrawAmountPolicy.full body = ok none

abbrev pub checked_destination : AddressCheck → Outcome ℕ
checked_destination (checksummed a) = ok a
checked_destination address_error = fail HttpError.invalid_address
checked_destination config_error = fail HttpError.service_unavailable

abbrev pub or_zero : Option ℕ → ℕ
or_zero none = 0
or_zero (some h) = h

-- `next_run`
abbrev pub first_run : ℕ → Bool → AutoWithdrawMode → Option ℕ → Option ℕ
first_run now true AutoWithdrawMode.time interval = some (now + or_zero interval * hour)
first_run now _ _ interval = none

-- `values`, with the defaults of the columns that it does not name.
unfoldable pub rule_row :
    ℕ → ℕ → AutoWithdrawIn → Option ℕ → Option ℤ → Option ℤ → ℕ → AutoWithdrawalConfig
rule_row now user body interval threshold fixed_amount address = record {
  user_id = user;
  enabled = body.enabled;
  mode = body.mode;
  interval_hours = interval;
  threshold_usd = threshold;
  amount_policy = body.amount_policy;
  fixed_amount_usd = fixed_amount;
  to_address = address;
  next_run_at = first_run now body.enabled body.mode interval;
  last_run_at = none;
  last_withdrawal_id = none;
}

-- `DO UPDATE SET` of the named columns.
abbrev pub overwrite : AutoWithdrawalConfig → AutoWithdrawalConfig → AutoWithdrawalConfig
overwrite values row = record values {
  user_id = row.user_id;
  last_run_at = row.last_run_at;
  last_withdrawal_id = row.last_withdrawal_id;
}

-- `INSERT … ON CONFLICT (user_id) DO UPDATE`
unfoldable pub upsert : AutoWithdrawalConfig → List AutoWithdrawalConfig → List AutoWithdrawalConfig
upsert values rows =
    if exists_row (rule_of values.user_id) rows
    then update_rows (rule_of values.user_id) (overwrite values) rows
    else values ∷ rows

abbrev pub with_rules : List AutoWithdrawalConfig → Db → Db
with_rules rows db = record db { auto_withdrawal_configs = rows }

-- `put_auto_config`: the tables after its commit.
unfoldable pub put_auto_config :
    PayoutClient → PayoutSettings → ℕ → ℕ → AutoWithdrawIn → Db → Outcome Db
unfolding rule_row upsert
put_auto_config client settings now user body db = do
  raise_if (not (is_interval body.interval_hours)) HttpError.invalid_body
  columns ← mode_columns settings.withdrawal_min_usd body.mode body
  fixed_amount ← fixed_column settings.withdrawal_min_usd body.amount_policy body
  address ← checked_destination (client.is_valid_address body.to_address)
  let values = rule_row now user body columns.0 columns.1 fixed_amount address
  ok (with_rules (upsert values db.auto_withdrawal_configs) db)

abbrev pub switched_off : AutoWithdrawalConfig → AutoWithdrawalConfig
switched_off c = record c { enabled = false; next_run_at = none }

-- `disable_auto_config`; without a rule there is nothing to do.
unfoldable pub disable_auto_config : ℕ → Db → Db
disable_auto_config user db =
    with_rules (update_rows (rule_of user) switched_off db.auto_withdrawal_configs) db
