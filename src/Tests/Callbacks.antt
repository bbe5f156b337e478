-- ===== src/Tests/Callbacks.antt =====
-- Callbacks of both gateways for an invoice of ten dollars, of which a half arrived.
use abr_out.Prelude.{[], ◌∷◌, some, true, ◌≡◌, ◌≢◌, refl, sym, ap, ◌∙◌, arith}
use abr_out.Prelude.Int.{pos}
use abr_out.Prelude.Rows.{first_row, unique_on, exists_row}
use abr_out.Prelude.Rounding.{round_half_up}
use abr_out.Models.{PaymentIntent, PaymentGateway, PaymentStatus, Currency, IdempotencyKey}
use abr_out.Outside.{World}
use abr_out.Wallet.{commit, satisfies_constraints}
use abr_out.Payment.{
  Decimals, Payload, PayStatus, Field, nowpayments_verdict, plisio_verdict, nowpayments_partial,
  plisio_partial, plisio_by_rate, clamp_credit, quantize_usd, partial_verdict,
}
use abr_out.Webhook.{intent_of, nowpayments_ipn, plisio_ipn, ipn, on_order, settle, credit, topup}
use abr_out.Webhook.Topups.{nowpayments_ipn-once}
use abr_out.Webhook.Bounds.{IsToppedUp, nowpayments_ipn-IsToppedUp}
use abr_out.Tests.Sample.{market, world_of}

-- Any rounding of Python gives five dollars here.
abbrev decimals : Decimals
decimals = record {
  div_mul = λ a b c. pos 5_000_000_000_000_000_000;
  mul = λ a b. pos 5_000_000_000_000_000_000;
  mul_div = λ a b c. pos 5_000_000_000_000_000_000;
}

abbrev invoice : PaymentGateway → PaymentIntent
invoice gateway = record {
  id = 3;
  user_id = 20;
  gateway = gateway;
  amount = pos 1_000_000_000;
  currency = Currency.usd;
  status = PaymentStatus.pending;
  external_ref = some 41;
}

abbrev billed : PaymentGateway → World
billed gateway = world_of (record market { payment_intents = invoice gateway ∷ [] })

abbrev payload : PayStatus → Payload
payload status = record {
  order_id = some 41;
  status = status;
  source_amount = Field.absent;
  paid = Field.number (pos 5_000_000_000_000_000_000);
  invoiced = Field.number (pos 10_000_000_000_000_000_000);
  source_rate = Field.number (pos 1_000_000_000_000_000_000);
}

found_nowpayments :
    intent_of PaymentGateway.nowpayments 41 (billed PaymentGateway.nowpayments).db
    ≡ some (invoice PaymentGateway.nowpayments)
unfolding first_row
found_nowpayments = refl

nowpayments_ipn-IsToppedUp_example :
    IsToppedUp IdempotencyKey.nowpayments 41
      (invoice PaymentGateway.nowpayments)
      (billed PaymentGateway.nowpayments).db
      (nowpayments_ipn decimals true
        (some (payload PayStatus.partial))
        (billed PaymentGateway.nowpayments)).0.db
nowpayments_ipn-IsToppedUp_example =
    nowpayments_ipn-IsToppedUp decimals true (payload PayStatus.partial) 41
      (invoice PaymentGateway.nowpayments) (billed PaymentGateway.nowpayments) refl
      found_nowpayments (omega arith)

nowpayments_credits :
    (nowpayments_ipn decimals true
      (some (payload PayStatus.partial))
      (billed PaymentGateway.nowpayments)).0.db.wallet_transactions
    ≡ topup IdempotencyKey.nowpayments 41 (invoice PaymentGateway.nowpayments) (pos 500_000_000)
      ∷ market.wallet_transactions
unfolding nowpayments_ipn ipn on_order first_row settle credit commit satisfies_constraints
    unique_on exists_row nowpayments_verdict nowpayments_partial partial_verdict clamp_credit
    quantize_usd round_half_up
nowpayments_credits = refl

nowpayments_changes :
    (nowpayments_ipn decimals true
      (some (payload PayStatus.partial))
      (billed PaymentGateway.nowpayments)).0
    ≢ billed PaymentGateway.nowpayments
nowpayments_changes same =
    let grown : topup IdempotencyKey.nowpayments 41 (invoice PaymentGateway.nowpayments)
            (pos 500_000_000)
          ∷ market.wallet_transactions
        ≡ market.wallet_transactions =
      sym nowpayments_credits ∙ ap (λ (w : World). w.db.wallet_transactions) same in
    cc

nowpayments_ipn-once_example :
    let first =
      (nowpayments_ipn decimals true
        (some (payload PayStatus.partial))
        (billed PaymentGateway.nowpayments)).0 in
    (nowpayments_ipn decimals true (some (payload PayStatus.success)) first).0 ≡ first
nowpayments_ipn-once_example =
    nowpayments_ipn-once decimals (payload PayStatus.partial) (payload PayStatus.success) 41 true
      (billed PaymentGateway.nowpayments) refl refl nowpayments_changes

plisio_credits :
    (plisio_ipn decimals true
      (some (payload PayStatus.expired))
      (billed PaymentGateway.plisio)).0.db.wallet_transactions
    ≡ topup IdempotencyKey.plisio 41 (invoice PaymentGateway.plisio) (pos 500_000_000)
      ∷ market.wallet_transactions
unfolding plisio_ipn ipn on_order first_row settle credit commit satisfies_constraints unique_on
    exists_row plisio_verdict plisio_partial plisio_by_rate partial_verdict clamp_credit
    quantize_usd round_half_up
plisio_credits = refl
