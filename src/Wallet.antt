-- ===== src/Wallet.antt =====
-- app/common/db/wallet.py, and the UNIQUE constraints that a commit checks.
pub mod Balance
use abr_out.Prelude.{
  ℕ, List, Option, none, some, Bool, true, false, ◌&&◌, ◌==◌, ◌≡◌, arith, if◌then◌else◌,
}
use abr_out.Prelude.Int.{ℤ, neg}
use abr_out.Prelude.Rows.{select, sum_rows, unique_on}
use abr_out.Models.{
  Db, Listing, WalletTransaction, WithdrawalRequest, WithdrawalStatus, OutboundUsage, ConfigUsage,
  TxnType, Currency, IdempotencyKey, Ref, Reason, Note, same_currency, same_key, clash,
}

abbrev pub belongs_to : ℕ → Currency → WalletTransaction → Bool
belongs_to user currency t = t.user_id == user && same_currency t.currency currency

-- `get_balance`
unfoldable pub get_balance : List WalletTransaction → ℕ → Currency → ℤ
get_balance ledger user currency =
    sum_rows (λ t. t.amount) (select (belongs_to user currency) ledger)

abbrev pub usd_of : Db → ℕ → ℤ
usd_of db user = get_balance db.wallet_transactions user Currency.usd

-- `debit_for_withdrawal`: the staged ledger row.
unfoldable pub debit_for_withdrawal : WithdrawalRequest → WalletTransaction
debit_for_withdrawal w = record {
  user_id = w.user_id;
  amount = neg w.amount_usd;
  currency = Currency.usd;
  type = TxnType.payout;
  ref = if w.id == 0 then none else some (Ref.withdraw w.id);
  note = none;
  idempotency_key = some w.idempotency_key;
}

-- `refund_failed_withdrawal`: the staged ledger row and the request marked as refunded.
unfoldable pub refund_failed_withdrawal :
    WithdrawalRequest → Option Reason → WalletTransaction × WithdrawalRequest
refund_failed_withdrawal w reason = (
  record {
    user_id = w.user_id;
    amount = w.amount_usd;
    currency = Currency.usd;
    type = TxnType.refund;
    ref = some (Ref.withdraw w.id);
    note = some (Note.refund_withdrawal w.id reason);
    idempotency_key = some (IdempotencyKey.withdraw_refund w.id);
  },
  record w { status = WithdrawalStatus.refunded },
)

-- The UNIQUE constraints of the ledger, the two usage tables, the withdrawal requests and the
-- listings.
abbrev pub same_txn : WalletTransaction → WalletTransaction → Bool
same_txn a b = clash a.idempotency_key b.idempotency_key

abbrev pub same_outbound_cycle : OutboundUsage → OutboundUsage → Bool
same_outbound_cycle a b = a.listing_id == b.listing_id && a.cycle_id == b.cycle_id

abbrev pub same_config_cycle : ConfigUsage → ConfigUsage → Bool
same_config_cycle a b = a.config_id == b.config_id && a.cycle_id == b.cycle_id

abbrev pub same_withdrawal : WithdrawalRequest → WithdrawalRequest → Bool
same_withdrawal a b = same_key a.idempotency_key b.idempotency_key

abbrev pub same_port : Listing → Listing → Bool
same_port a b = a.port == b.port

abbrev pub both_some : Option ℕ → Option ℕ → Bool
both_some (some i) (some j) = i == j
both_some _ _ = false

abbrev pub same_inbound : Listing → Listing → Bool
same_inbound a b = both_some a.panel_inbound_id b.panel_inbound_id

unfoldable pub unique_listings : List Listing → Bool
unique_listings ls = unique_on same_port ls && unique_on same_inbound ls

unfoldable pub satisfies_constraints : Db → Bool
unfolding unique_listings
satisfies_constraints db =
    unique_on same_txn db.wallet_transactions
    && unique_on same_outbound_cycle db.outbound_usage
    && unique_on same_config_cycle db.config_usage
    && unique_on same_withdrawal db.withdrawal_requests
    && unique_listings db.listings

-- `session.commit()`; `none` is an IntegrityError, after which nothing of the session stays.
unfoldable pub commit : Db → Option Db
commit db = if satisfies_constraints db then some db else none

-- What a commit that goes through tells of the session.
pub commit-some :
    (db : Db) {db' : Db} → commit db ≡ some db' → (db' ≡ db) × (satisfies_constraints db ≡ true)
unfolding commit
commit-some db h = ground arith
