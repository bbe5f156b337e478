-- ===== src/Payment.antt =====
-- What the callbacks of app/api/routes/webhook.py make of a payload: the credit of a partial payment
-- and the branch that is taken. A number of the payload is a count of 10^-18; products and quotients
-- of such numbers, which Python rounds to 28 digits, are a parameter, in 10^-18 dollars.
use abr_out.Prelude.{ℕ, suc, ◌*◌, ◌^◌, Option, none, some, Bool, ◌&&◌, if◌then◌else◌}
use abr_out.Prelude.Int.{ℤ, pos, negsuc, neg, ltb_ℤ}
use abr_out.Prelude.Rounding.{round_half_up}
use abr_out.Models.{PaymentIntent}

-- `_PARTIAL_MIN_CREDIT_USD`, in 10^-8 dollars.
abbrev pub partial_min_credit_usd : ℤ
partial_min_credit_usd = pos 50_000_000

-- `_quantize_usd`: 10^-18 dollars, rounded to cents and given in 10^-8 dollars.
unfoldable pub quantize_usd : ℤ → ℤ
quantize_usd (pos n) = pos (round_half_up n (10 ^ 16) * 10 ^ 6)
quantize_usd (negsuc n) = neg (pos (round_half_up (suc n) (10 ^ 16) * 10 ^ 6))

-- `_clamp_credit`
unfoldable pub clamp_credit : ℤ → ℤ → ℤ
clamp_credit usd invoice_amount =
    if ltb_ℤ usd (pos 0) then pos 0 else if ltb_ℤ invoice_amount usd then invoice_amount else usd

-- A field of the payload: missing, no number, or a number.
pub data Field : Type 0 where
  absent garbled : Field
  number : ℤ → Field

-- `decimal.Decimal`: `a / b * c`, `a * b`, and `a * b / c`.
pub record Decimals : Type 0 where
  pub div_mul : ℤ → ℤ → ℤ → ℤ
  pub mul : ℤ → ℤ → ℤ
  pub mul_div : ℤ → ℤ → ℤ → ℤ

-- The sets of statuses; `duplicate` and `in_flight` fall through.
pub data PayStatus : Type 0 where
  success failure partial expired duplicate in_flight : PayStatus

pub record Payload : Type 0 where
  -- `none` is the empty text.
  pub order_id : Option ℕ
  pub status : PayStatus
  -- `price_amount`, `source_amount`
  pub source_amount : Field
  -- `actually_paid`, `amount`
  pub paid : Field
  -- `pay_amount`, `invoice_total_sum`
  pub invoiced : Field
  pub source_rate : Field

-- What a callback does with a pending intent; `crash` is an exception that leaves the handler.
pub data Verdict : Type 0 where
  credit_full fail_payment fail_dust wait crash : Verdict
  credit_partial : ℤ → Verdict

-- `if credited is None or credited < _PARTIAL_MIN_CREDIT_USD`
unfoldable pub partial_verdict : Option ℤ → Verdict
partial_verdict none = Verdict.fail_dust
partial_verdict (some credited) =
    if ltb_ℤ credited partial_min_credit_usd
    then Verdict.fail_dust
    else Verdict.credit_partial credited

abbrev pub is_positive : ℤ → Bool
is_positive x = ltb_ℤ (pos 0) x

-- 10^-8 dollars as 10^-18 dollars.
abbrev pub in_payload_units : ℤ → ℤ
in_payload_units (pos n) = pos (n * 10 ^ 10)
in_payload_units (negsuc n) = neg (pos (suc n * 10 ^ 10))

-- `Decimal(str(x))` of a field that is there, inside the `try` whose exceptions leave no credit.
abbrev pub with_number : Field → (ℤ → Option ℤ) → Option ℤ
with_number Field.absent k = none
with_number Field.garbled k = none
with_number (Field.number x) k = k x

-- `price_amount` is parsed outside that `try`; without it the invoice's amount stands in.
abbrev pub by_source : Field → Option ℤ → (ℤ → Option ℤ) → Verdict
by_source Field.absent own k = partial_verdict own
by_source Field.garbled own k = Verdict.crash
by_source (Field.number usd) own k = partial_verdict (k usd)

module _ (decimals : Decimals) where
  -- `actually_paid / pay_amount * invoice_usd`
  unfoldable pub nowpayments_partial : Payload → ℤ → PaymentIntent → Option ℤ
  nowpayments_partial p invoice_usd intent = with_number p.paid λ ap. with_number p.invoiced λ pm.
      if is_positive pm && is_positive ap
      then some (clamp_credit (quantize_usd (decimals.div_mul ap pm invoice_usd)) intent.amount)
      else none

  -- The branches of `nowpayments_ipn`. It does not know the statuses of Plisio.
  abbrev pub nowpayments_on : PayStatus → Payload → PaymentIntent → Verdict
  nowpayments_on PayStatus.success p intent = Verdict.credit_full
  nowpayments_on PayStatus.failure p intent = Verdict.fail_payment
  nowpayments_on PayStatus.expired p intent = Verdict.fail_payment
  nowpayments_on PayStatus.partial p intent =
      by_source p.source_amount (nowpayments_partial p (in_payload_units intent.amount) intent)
        (λ usd. nowpayments_partial p usd intent)
  nowpayments_on _ p intent = Verdict.wait

  unfoldable pub nowpayments_verdict : Payload → PaymentIntent → Verdict
  nowpayments_verdict p intent = nowpayments_on p.status p intent

  -- The fallback on the invoice's own ratio.
  unfoldable pub plisio_by_ratio : Payload → ℤ → PaymentIntent → Option ℤ
  plisio_by_ratio p amount intent = with_number p.invoiced λ inv_total.
      with_number p.source_amount λ src_total.
        if is_positive inv_total && is_positive src_total
        then some (
            clamp_credit (quantize_usd (decimals.mul_div src_total amount inv_total)) intent.amount)
        else none

  unfoldable pub plisio_by_rate : Payload → ℤ → PaymentIntent → Option ℤ
  plisio_by_rate p amount intent = elim p.source_rate [
    | absent ↦ plisio_by_ratio p amount intent
    | garbled ↦ none
    | number rate ↦
        if is_positive rate
        then some (clamp_credit (quantize_usd (decimals.mul amount rate)) intent.amount)
        else plisio_by_ratio p amount intent
  ]

  unfoldable pub plisio_partial : Payload → PaymentIntent → Option ℤ
  plisio_partial p intent =
      with_number p.paid
        λ amount. if is_positive amount then plisio_by_rate p amount intent else none

  -- The branches of `plisio_ipn`.
  abbrev pub plisio_on : PayStatus → Payload → PaymentIntent → Verdict
  plisio_on PayStatus.success p intent = Verdict.credit_full
  plisio_on PayStatus.failure p intent = Verdict.fail_payment
  plisio_on PayStatus.expired p intent = partial_verdict (plisio_partial p intent)
  plisio_on _ p intent = Verdict.wait

  unfoldable pub plisio_verdict : Payload → PaymentIntent → Verdict
  plisio_verdict p intent = plisio_on p.status p intent
