-- ===== src/Payout/Client.antt =====
-- The part of `BscPayoutClient` (app/common/payout/bsc.py) that the withdrawal code calls, by its
-- answers. Amounts are in 10^-8 dollars or USDT; texts, addresses, hashes and raw transactions are
-- numbers that stand for them.
use abr_out.Prelude.{ℕ, Option, Bool}
use abr_out.Prelude.Int.{ℤ}

-- `is_valid_address`: the checksummed address, or which exception.
pub data AddressCheck : Type 0 where
  checksummed : ℕ → AddressCheck
  address_error config_error : AddressCheck

-- `SignedTransfer`
pub record SignedTransfer : Type 0 where
  pub tx_hash : ℕ
  pub raw_tx : ℕ
  pub gas_price_wei : ℕ

-- `sign_transfer`: the signed transfer, or the text of the exception.
pub data Signing : Type 0 where
  signed : SignedTransfer → Signing
  raised : ℕ → Signing

-- The fields of a receipt that are read; `status` is 0 where it is missing.
pub record Receipt : Type 0 where
  pub status : ℕ
  pub gas_used : Option ℕ

pub record PayoutClient : Type 0 where
  pub is_valid_address : ℕ → AddressCheck
  pub fee_usd : ℤ
  pub gas_price_wei : ℕ
  -- `none` is a PayoutConfigError.
  pub usdt_balance : Option ℤ
  -- withdrawal, address, amount, gas price
  pub sign_transfer : ℕ → ℕ → ℤ → Option ℕ → Signing
  pub get_receipt : ℕ → Option Receipt
  -- Whether the node knows the transaction.
  pub get_transaction : ℕ → Bool

-- The settings of app/common/settings.py that the withdrawals read; times in microseconds.
pub record PayoutSettings : Type 0 where
  pub withdrawal_min_usd : ℤ
  pub withdrawal_max_usd : ℤ
  pub withdrawal_max_usd_per_day : ℤ
  pub submitting_recovery : ℕ
  pub submitted_alert : ℕ
  pub threshold_cooldown : ℕ
