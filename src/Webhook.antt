-- ===== src/Webhook.antt =====
-- The payment callbacks of app/api/routes/webhook.py. The checks of the signatures
-- (`verify_nowpayments_signature`, `verify_plisio_signature`) and the parse of the body come in as
-- arguments. What they make of a payload is in Payment. A callback locks its intent
-- until it ends, so it is one step. Log lines are left out.
pub mod Topups
pub mod Bounds
use abr_out.Prelude.{
  ℕ, suc, ◌*◌, ◌^◌, ◌∷◌, Option, none, some, Bool, true, false, not, ◌&&◌, ◌==◌, if◌then◌else◌,
}
use abr_out.Prelude.Int.{ℤ, pos, negsuc, neg, ltb_ℤ}
use abr_out.Prelude.Rows.{first_row, update_rows}
use abr_out.Prelude.Rounding.{round_half_up}
use abr_out.Models.{
  Db, PaymentIntent, PaymentGateway, PaymentStatus, WalletTransaction, TxnType, Currency,
  IdempotencyKey, Ref, same_gateway, payment_pending,
}
use abr_out.Outside.{World, Effect, Message, emit}
use abr_out.Wallet.{commit}
use abr_out.Payment.{
  partial_min_credit_usd, quantize_usd, clamp_credit, Field, Decimals, PayStatus, Payload, Verdict,
  partial_verdict, is_positive, in_payload_units, with_number, by_source, nowpayments_partial,
  nowpayments_on, nowpayments_verdict, plisio_by_ratio, plisio_by_rate, plisio_partial, plisio_on,
  plisio_verdict,
}

pub data Reply : Type 0 where
  status_code : ℕ → Reply
  server_error : Reply

-- `external_ref == order_id and gateway == …`; `external_ref` is unique.
abbrev pub is_order : PaymentGateway → ℕ → PaymentIntent → Bool
is_order gateway order i = elim i.external_ref [
  | none ↦ false
  | some r ↦ r == order && same_gateway i.gateway gateway
]

abbrev pub intent_of : PaymentGateway → ℕ → Db → Option PaymentIntent
intent_of gateway order db = first_row (is_order gateway order) db.payment_intents

abbrev pub write_intent : ℕ → (PaymentIntent → PaymentIntent) → Db → Db
write_intent id f db = record db {
  payment_intents = update_rows (λ i. i.id == id) f db.payment_intents;
}

-- `intent.currency or "USD"`
abbrev pub or_usd : Currency → Currency
or_usd Currency.blank = Currency.usd
or_usd c = c

unfoldable pub topup : (ℕ → IdempotencyKey) → ℕ → PaymentIntent → ℤ → WalletTransaction
topup key order intent amount = record {
  user_id = intent.user_id;
  amount = amount;
  currency = or_usd intent.currency;
  type = TxnType.topup;
  ref = some (Ref.order order);
  note = none;
  idempotency_key = some (key order);
}

abbrev pub confirm_intent : ℤ → PaymentIntent → PaymentIntent
confirm_intent amount i = record i { amount = amount; status = PaymentStatus.confirmed }

abbrev pub fail_intent : PaymentIntent → PaymentIntent
fail_intent i = record i { status = PaymentStatus.failed }

abbrev pub commit_with : Db → Message → ℕ → World → World × Reply
commit_with db m user w = elim (commit db) [
  | none ↦ (w, Reply.server_error)
  | some db' ↦ (emit (Effect.message user m) (record w { db = db' }), Reply.status_code 200)
]

unfoldable pub credit :
    (ℕ → IdempotencyKey) → ℕ → PaymentIntent → ℤ → Message → World → World × Reply
unfolding topup
credit key order intent amount m w =
    commit_with
      (record (write_intent intent.id (confirm_intent amount) w.db) {
        wallet_transactions = topup key order intent amount ∷ w.db.wallet_transactions;
      })
      m intent.user_id w

unfoldable pub settle : (ℕ → IdempotencyKey) → ℕ → PaymentIntent → Verdict → World → World × Reply
settle key order intent Verdict.credit_full w =
    credit key order intent intent.amount (Message.topup_credited intent.amount order) w
settle key order intent (Verdict.credit_partial amount) w =
    credit key order intent amount (Message.topup_partial amount order) w
settle key order intent Verdict.fail_payment w =
    commit_with (write_intent intent.id fail_intent w.db) (Message.topup_failed order)
      intent.user_id w
settle key order intent Verdict.fail_dust w =
    commit_with (write_intent intent.id fail_intent w.db) (Message.topup_dust order) intent.user_id
      w
settle key order intent Verdict.wait w = (w, Reply.status_code 200)
settle key order intent Verdict.crash w = (w, Reply.server_error)

-- The common shape of the two handlers: signature, body, order, intent, idempotence.
module _ (gateway : PaymentGateway) (key : ℕ → IdempotencyKey)
    (verdict : Payload → PaymentIntent → Verdict) where
  unfoldable pub on_order : Payload → ℕ → World → World × Reply
  unfolding settle
  on_order p order w = elim (intent_of gateway order w.db) [
    | none ↦ (w, Reply.status_code 200)
    | some intent ↦
        if payment_pending intent.status
        then settle key order intent (verdict p intent) w
        else (w, Reply.status_code 200)
  ]

  unfoldable pub ipn : Bool → Option Payload → World → World × Reply
  unfolding on_order
  ipn false body w = (w, Reply.status_code 401)
  ipn true none w = (w, Reply.status_code 400)
  ipn true (some p) w = elim p.order_id [
    | none ↦ (w, Reply.status_code 200)
    | some order ↦ on_order p order w
  ]

-- `nowpayments_ipn`
unfoldable pub nowpayments_ipn : Decimals → Bool → Option Payload → World → World × Reply
nowpayments_ipn decimals =
    ipn PaymentGateway.nowpayments IdempotencyKey.nowpayments (nowpayments_verdict decimals)

-- `plisio_ipn`
unfoldable pub plisio_ipn : Decimals → Bool → Option Payload → World → World × Reply
plisio_ipn decimals = ipn PaymentGateway.plisio IdempotencyKey.plisio (plisio_verdict decimals)
