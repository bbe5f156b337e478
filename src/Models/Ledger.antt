-- ===== src/Models/Ledger.antt =====
-- `WalletTransaction` of app/common/db/models.py, with the texts that the code formats for it.
-- A formatted text is the constructor of its format applied to what the format prints.
use abr_out.Prelude.{ℕ, Option, some, Bool, true, false, ◌&&◌, ◌==◌, ◌≡◌, arith}
use abr_out.Prelude.Int.{ℤ}
use abr_out.Prelude.Text.{Text}

pub data TxnType : Type 0 where
  topup usage_debit usage_credit commission refund payout adjustment : TxnType

-- `blank` is the empty text, which Python takes for false.
pub data Currency : Type 0 where
  usd blank : Currency
  other : ℕ → Currency

-- A non-negative `Decimal` setting such as COMMISSION_PCT, as a fraction.
pub record Fraction : Type 0 where
  pub num : ℕ
  pub den : ℕ

-- The formats of `idempotency_key`; two keys of different formats are different texts.
pub data IdempotencyKey : Type 0 where
  poll_outbound poll_debit : ℕ → ℕ → IdempotencyKey
  withdraw_debit withdraw_refund nowpayments plisio : ℕ → IdempotencyKey
  -- an admin's id and a random uuid
  admin : ℕ → ℕ → IdempotencyKey

pub data Ref : Type 0 where
  listing config withdraw order admin : ℕ → Ref

pub data Reason : Type 0 where
  sign_failed on_chain_reverted : Reason

pub data Note : Type 0 where
  outbound : ℕ → ℕ → Note
  usage : ℕ → ℕ → Fraction → Note
  refund_withdrawal : ℕ → Option Reason → Note
  -- what an admin types
  written : Text → Note

pub record WalletTransaction : Type 0 where
  pub user_id : ℕ
  pub amount : ℤ
  pub currency : Currency
  pub type : TxnType
  pub ref : Option Ref
  pub note : Option Note
  pub idempotency_key : Option IdempotencyKey

abbrev pub same_currency : Currency → Currency → Bool
same_currency Currency.usd Currency.usd = true
same_currency Currency.blank Currency.blank = true
same_currency (Currency.other a) (Currency.other b) = a == b
same_currency _ _ = false

abbrev pub same_key : IdempotencyKey → IdempotencyKey → Bool
same_key (IdempotencyKey.poll_outbound c l) (IdempotencyKey.poll_outbound d m) = c == d && l == m
same_key (IdempotencyKey.poll_debit c l) (IdempotencyKey.poll_debit d m) = c == d && l == m
same_key (IdempotencyKey.withdraw_debit t) (IdempotencyKey.withdraw_debit u) = t == u
same_key (IdempotencyKey.withdraw_refund t) (IdempotencyKey.withdraw_refund u) = t == u
same_key (IdempotencyKey.nowpayments t) (IdempotencyKey.nowpayments u) = t == u
same_key (IdempotencyKey.plisio t) (IdempotencyKey.plisio u) = t == u
same_key (IdempotencyKey.admin a t) (IdempotencyKey.admin b u) = a == b && t == u
same_key _ _ = false

pub same_key_refl : (k : IdempotencyKey) → same_key k k ≡ true
same_key_refl (IdempotencyKey.poll_outbound c l) = ground arith
same_key_refl (IdempotencyKey.poll_debit c l) = ground arith
same_key_refl (IdempotencyKey.withdraw_debit t) = ground arith
same_key_refl (IdempotencyKey.withdraw_refund t) = ground arith
same_key_refl (IdempotencyKey.nowpayments t) = ground arith
same_key_refl (IdempotencyKey.plisio t) = ground arith
same_key_refl (IdempotencyKey.admin a t) = ground arith

-- `a is not None and b is not None and a == b`: SQL's UNIQUE lets any number of NULLs stand.
abbrev pub clash : Option IdempotencyKey → Option IdempotencyKey → Bool
clash (some a) (some b) = same_key a b
clash _ _ = false
