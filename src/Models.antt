-- ===== src/Models.antt =====
-- The tables of app/common/db/models.py. A table is the list of its rows, newest first; the order
-- is never read but where a query orders. A text column that the program takes apart or compares by
-- parts is a `Text`, the list of its code points; one that is only compared and passed on is a
-- number that stands for it. Times are numbers of microseconds. A `Numeric(20, 8)` amount is a
-- whole number of 10^-8 dollars, a `Numeric(10, 4)` price of 10^-4 dollars, a `Numeric(20, 10)`
-- volume of 10^-10 GB. Columns that a table fills by itself and no modelled code reads
-- (`wallet_transactions.id`, `updated_at` of the intents) are left out.
mod Market
mod Ledger
mod Requests
mod Messages
pub use Market.*
pub use Ledger.*
pub use Requests.*
pub use Messages.*
use abr_out.Prelude.{ℕ, List, Option, Bool}
use abr_out.Prelude.Text.{Text}

-- A row of `users`.
pub record User : Type 0 where
  pub telegram_id : ℕ
  pub username : Option Text
  pub is_admin : Bool
  pub is_blocked : Bool
  pub started_at : Option ℕ
  pub created_at : ℕ

pub record Db : Type 0 where
  pub users : List User
  pub listings : List Listing
  pub configs : List Config
  pub outbound_usage : List OutboundUsage
  pub config_usage : List ConfigUsage
  pub wallet_transactions : List WalletTransaction
  pub ping_samples : List PingSample
  pub payment_intents : List PaymentIntent
  pub withdrawal_requests : List WithdrawalRequest
  pub auto_withdrawal_configs : List AutoWithdrawalConfig
  pub support_messages : List SupportMessage
  pub broadcasts : List Broadcast
