-- ===== src/Models/Requests.antt =====
-- Payment intents, withdrawal requests and auto-withdraw rules of app/common/db/models.py.
use abr_out.Prelude.{ℕ, Option, Bool, true, false}
use abr_out.Prelude.Int.{ℤ}
use abr_out.Models.Ledger.{Currency, IdempotencyKey}

pub data PaymentGateway : Type 0 where
  manual nowpayments plisio : PaymentGateway

pub data PaymentStatus : Type 0 where
  pending confirmed failed : PaymentStatus

pub data WithdrawalStatus : Type 0 where
  pending submitting submitted confirmed failed refunded : WithdrawalStatus

pub data WithdrawalSource : Type 0 where
  manual auto : WithdrawalSource

pub data AutoWithdrawMode : Type 0 where
  time threshold : AutoWithdrawMode

pub data AutoWithdrawAmountPolicy : Type 0 where
  full fixed : AutoWithdrawAmountPolicy

abbrev pub payment_pending : PaymentStatus → Bool
payment_pending PaymentStatus.pending = true
payment_pending _ = false

abbrev pub withdrawal_pending : WithdrawalStatus → Bool
withdrawal_pending WithdrawalStatus.pending = true
withdrawal_pending _ = false

abbrev pub withdrawal_submitting : WithdrawalStatus → Bool
withdrawal_submitting WithdrawalStatus.submitting = true
withdrawal_submitting _ = false

abbrev pub withdrawal_submitted : WithdrawalStatus → Bool
withdrawal_submitted WithdrawalStatus.submitted = true
withdrawal_submitted _ = false

abbrev pub same_gateway : PaymentGateway → PaymentGateway → Bool
same_gateway PaymentGateway.manual PaymentGateway.manual = true
same_gateway PaymentGateway.nowpayments PaymentGateway.nowpayments = true
same_gateway PaymentGateway.plisio PaymentGateway.plisio = true
same_gateway _ _ = false

pub record PaymentIntent : Type 0 where
  pub id : ℕ
  pub user_id : ℕ
  pub gateway : PaymentGateway
  pub amount : ℤ
  pub currency : Currency
  pub status : PaymentStatus
  pub external_ref : Option ℕ

-- What the worker writes into `error_msg`.
pub data ErrorMsg : Type 0 where
  recovered on_chain_reverted : ErrorMsg
  sign_failed : ℕ → ErrorMsg
  dropped_mempool : ℕ → ErrorMsg

pub record WithdrawalRequest : Type 0 where
  pub id : ℕ
  pub user_id : ℕ
  pub amount_usd : ℤ
  pub fee_usd : ℤ
  pub net_usdt : ℤ
  pub to_address : ℕ
  pub status : WithdrawalStatus
  pub source : WithdrawalSource
  pub tx_hash : Option ℕ
  pub error_msg : Option ErrorMsg
  pub gas_price_wei : Option ℕ
  pub gas_used : Option ℕ
  pub idempotency_key : IdempotencyKey
  pub created_at : ℕ
  pub updated_at : ℕ

pub record AutoWithdrawalConfig : Type 0 where
  pub user_id : ℕ
  pub enabled : Bool
  pub mode : AutoWithdrawMode
  pub interval_hours : Option ℕ
  pub threshold_usd : Option ℤ
  pub amount_policy : AutoWithdrawAmountPolicy
  pub fixed_amount_usd : Option ℤ
  pub to_address : ℕ
  pub next_run_at : Option ℕ
  pub last_run_at : Option ℕ
  pub last_withdrawal_id : Option ℕ
