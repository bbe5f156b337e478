-- ===== src/Webhook/Bounds.antt =====
-- What a callback does to the ledger: it credits at most the invoice.
use abr_out.Prelude.{
  ℕ, ◌∷◌, Option, none, some, Bool, true, false, ◌≡◌, ◌⊎◌, refl, ap, inl, inr, arith, Bool-cases,
  if◌then◌else◌,
}
use abr_out.Prelude.Int.{ℤ, pos, ◌≤ℤ◌, ltb_ℤ, int_laws}
use abr_out.Models.{Db, PaymentIntent, PaymentGateway, IdempotencyKey, payment_pending}
use abr_out.Outside.{World}
use abr_out.Payment.{
  Decimals, Payload, PayStatus, by_source, nowpayments_on, plisio_on, Verdict, clamp_credit,
  partial_verdict, nowpayments_partial, nowpayments_verdict, plisio_by_ratio, plisio_by_rate,
  plisio_partial, plisio_verdict, partial_min_credit_usd, Field, with_number, is_positive,
}
use abr_out.Webhook.{intent_of, topup, credit, settle, on_order, ipn, nowpayments_ipn, plisio_ipn}
use abr_out.Webhook.Topups.{commit_with-cases, ipn-order}

abbrev IsWithin : PaymentIntent → ℤ → Type 0
IsWithin i a = (pos 0 ≤ℤ a) × (a ≤ℤ i.amount)

-- The ledger is as it was, or has one more top-up of the order, of at most the invoice.
abbrev pub IsToppedUp : (ℕ → IdempotencyKey) → ℕ → PaymentIntent → Db → Db → Type 0
IsToppedUp key order i db db' =
    (db'.wallet_transactions ≡ db.wallet_transactions)
    ⊎ ((a : ℤ) × IsWithin i a
        × (db'.wallet_transactions ≡ topup key order i a ∷ db.wallet_transactions))

clamp_credit-IsWithin :
    (usd : ℤ) (i : PaymentIntent) → pos 0 ≤ℤ i.amount → IsWithin i (clamp_credit usd i.amount)
unfolding clamp_credit
clamp_credit-IsWithin usd i h = ground (arith, h)

-- A computed credit, if there is one, is within the invoice.
abbrev AreWithin : PaymentIntent → Option ℤ → Type 0
AreWithin i none = Unit {0}
AreWithin i (some a) = IsWithin i a

abbrev IsCapped : PaymentIntent → Verdict → Type 0
IsCapped i (Verdict.credit_partial a) = IsWithin i a
IsCapped i _ = Unit {0}

partial_verdict-IsCapped :
    (i : PaymentIntent) (o : Option ℤ) → AreWithin i o → IsCapped i (partial_verdict o)
unfolding partial_verdict
partial_verdict-IsCapped i none h = tt
partial_verdict-IsCapped i (some a) h = elim (Bool-cases (ltb_ℤ a partial_min_credit_usd)) [
  | inl dust ↦ rw dust tt
  | inr enough ↦ rw enough h
]

if-AreWithin :
    (b : Bool) (i : PaymentIntent) (o o' : Option ℤ)
    → AreWithin i o
    → AreWithin i o'
    → AreWithin i (if b then o else o')
if-AreWithin true i o o' h h' = h
if-AreWithin false i o o' h h' = h'

with_number-AreWithin :
    (i : PaymentIntent) (f : Field) (k : ℤ → Option ℤ)
    → ((x : ℤ) → AreWithin i (k x))
    → AreWithin i (with_number f k)
with_number-AreWithin i Field.absent k h = tt
with_number-AreWithin i Field.garbled k h = tt
with_number-AreWithin i (Field.number x) k h = h x

Field-cases :
    (f : Field) → (f ≡ Field.absent) ⊎ (f ≡ Field.garbled) ⊎ ((x : ℤ) × (f ≡ Field.number x))
Field-cases Field.absent = inl refl
Field-cases Field.garbled = inr (inl refl)
Field-cases (Field.number x) = inr (inr (x, refl))

module _ (decimals : Decimals) (i : PaymentIntent) (owed : pos 0 ≤ℤ i.amount) where
  nowpayments_partial-AreWithin :
      (p : Payload) (usd : ℤ) → AreWithin i (nowpayments_partial decimals p usd i)
  unfolding nowpayments_partial
  nowpayments_partial-AreWithin p usd = with_number-AreWithin i p.paid _ λ ap.
      with_number-AreWithin i p.invoiced _
        λ pm. if-AreWithin _ i (some _) none (clamp_credit-IsWithin _ i owed) tt

  plisio_by_ratio-AreWithin :
      (p : Payload) (amount : ℤ) → AreWithin i (plisio_by_ratio decimals p amount i)
  unfolding plisio_by_ratio
  plisio_by_ratio-AreWithin p amount = with_number-AreWithin i p.invoiced _ λ total.
      with_number-AreWithin i p.source_amount _
        λ source. if-AreWithin _ i (some _) none (clamp_credit-IsWithin _ i owed) tt

  plisio_by_rate-AreWithin :
      (p : Payload) (amount : ℤ) → AreWithin i (plisio_by_rate decimals p amount i)
  unfolding plisio_by_rate
  plisio_by_rate-AreWithin p amount = elim (Field-cases p.source_rate) [
    | inl e ↦ rw (e, plisio_by_rate) (plisio_by_ratio-AreWithin p amount)
    | inr (inl e) ↦ rw (e, plisio_by_rate) tt
    | inr (inr (rate, e)) ↦
        rw (e, plisio_by_rate)
          (if-AreWithin (is_positive rate) i (some _) _ (clamp_credit-IsWithin _ i owed)
            (plisio_by_ratio-AreWithin p amount))
  ]

  plisio_partial-AreWithin : (p : Payload) → AreWithin i (plisio_partial decimals p i)
  unfolding plisio_partial
  plisio_partial-AreWithin p =
      with_number-AreWithin i p.paid _
        λ amount. if-AreWithin _ i _ none (plisio_by_rate-AreWithin p amount) tt

  by_source-IsCapped :
      (f : Field) (o : ℤ → Option ℤ) (d : ℤ)
      → ((x : ℤ) → AreWithin i (o x))
      → IsCapped i (by_source f (o d) o)
  by_source-IsCapped Field.absent o d h = partial_verdict-IsCapped i (o d) (h d)
  by_source-IsCapped Field.garbled o d h = tt
  by_source-IsCapped (Field.number usd) o d h = partial_verdict-IsCapped i (o usd) (h usd)

  nowpayments_on-IsCapped :
      (s : PayStatus) (p : Payload) → IsCapped i (nowpayments_on decimals s p i)
  nowpayments_on-IsCapped PayStatus.success p = tt
  nowpayments_on-IsCapped PayStatus.failure p = tt
  nowpayments_on-IsCapped PayStatus.expired p = tt
  nowpayments_on-IsCapped PayStatus.partial p =
      by_source-IsCapped p.source_amount _ _ (nowpayments_partial-AreWithin p)
  nowpayments_on-IsCapped PayStatus.duplicate p = tt
  nowpayments_on-IsCapped PayStatus.in_flight p = tt

  plisio_on-IsCapped : (s : PayStatus) (p : Payload) → IsCapped i (plisio_on decimals s p i)
  plisio_on-IsCapped PayStatus.success p = tt
  plisio_on-IsCapped PayStatus.failure p = tt
  plisio_on-IsCapped PayStatus.expired p = partial_verdict-IsCapped i _ (plisio_partial-AreWithin p)
  plisio_on-IsCapped PayStatus.partial p = tt
  plisio_on-IsCapped PayStatus.duplicate p = tt
  plisio_on-IsCapped PayStatus.in_flight p = tt

module _ (gateway : PaymentGateway) (key : ℕ → IdempotencyKey) (order : ℕ) (i : PaymentIntent) where
  settle-IsToppedUp :
      (v : Verdict) (w : World)
      → pos 0 ≤ℤ i.amount
      → IsCapped i v
      → IsToppedUp key order i w.db (settle key order i v w).0.db
  unfolding settle credit
  settle-IsToppedUp Verdict.credit_full w owed h =
      commit_with-cases gateway key order _ _ i.user_id w (λ u. IsToppedUp key order i w.db u.db)
        (inl refl)
        (λ u e. inr (i.amount, (owed, omega int_laws), ap (λ d. d.wallet_transactions) e))
  settle-IsToppedUp (Verdict.credit_partial a) w owed h =
      commit_with-cases gateway key order _ _ i.user_id w (λ u. IsToppedUp key order i w.db u.db)
        (inl refl) (λ u e. inr (a, h, ap (λ d. d.wallet_transactions) e))
  settle-IsToppedUp Verdict.fail_payment w owed h =
      commit_with-cases gateway key order _ _ i.user_id w (λ u. IsToppedUp key order i w.db u.db)
        (inl refl) (λ u e. inl (ap (λ d. d.wallet_transactions) e))
  settle-IsToppedUp Verdict.fail_dust w owed h =
      commit_with-cases gateway key order _ _ i.user_id w (λ u. IsToppedUp key order i w.db u.db)
        (inl refl) (λ u e. inl (ap (λ d. d.wallet_transactions) e))
  settle-IsToppedUp Verdict.wait w owed h = inl refl
  settle-IsToppedUp Verdict.crash w owed h = inl refl

  ipn-IsToppedUp :
      (verdict : Payload → PaymentIntent → Verdict) (verified : Bool) (p : Payload) (w : World)
      → p.order_id ≡ some order
      → intent_of gateway order w.db ≡ some i
      → pos 0 ≤ℤ i.amount
      → IsCapped i (verdict p i)
      → IsToppedUp key order i w.db (ipn gateway key verdict verified (some p) w).0.db
  unfolding ipn
  ipn-IsToppedUp verdict false p w e found owed h = inl refl
  ipn-IsToppedUp verdict true p w e found owed h = elim (Bool-cases (payment_pending i.status)) [
    | inl waits ↦
        rw (ipn-order gateway key order verdict p w e)
          (rw (found, on_order) (rw waits (settle-IsToppedUp (verdict p i) w owed h)))
    | inr closed ↦
        rw (ipn-order gateway key order verdict p w e) (rw (found, on_order) (rw closed (inl refl)))
  ]

-- A callback of NowPayments for an order, whatever its payload and however Python rounds the
-- quotient in it, leaves the ledger as it is or adds one top-up, for the user of the intent, of at
-- least zero and at most the invoice. The invoice is not negative.
pub nowpayments_ipn-IsToppedUp :
    (decimals : Decimals) (verified : Bool) (p : Payload) (order : ℕ) (i : PaymentIntent)
    (w : World)
    → p.order_id ≡ some order
    → intent_of PaymentGateway.nowpayments order w.db ≡ some i
    → pos 0 ≤ℤ i.amount
    → IsToppedUp IdempotencyKey.nowpayments order i w.db
        (nowpayments_ipn decimals verified (some p) w).0.db
unfolding nowpayments_ipn nowpayments_verdict
nowpayments_ipn-IsToppedUp decimals verified p order i w e found owed =
    ipn-IsToppedUp PaymentGateway.nowpayments IdempotencyKey.nowpayments order i
      (nowpayments_verdict decimals) verified p w e found owed
      (nowpayments_on-IsCapped decimals i owed p.status p)

-- A callback of Plisio for an order, whatever its payload and however Python rounds the products in
-- it, leaves the ledger as it is or adds one top-up, for the user of the intent, of at least zero
-- and at most the invoice. The invoice is not negative.
pub plisio_ipn-IsToppedUp :
    (decimals : Decimals) (verified : Bool) (p : Payload) (order : ℕ) (i : PaymentIntent)
    (w : World)
    → p.order_id ≡ some order
    → intent_of PaymentGateway.plisio order w.db ≡ some i
    → pos 0 ≤ℤ i.amount
    → IsToppedUp IdempotencyKey.plisio order i w.db (plisio_ipn decimals verified (some p) w).0.db
unfolding plisio_ipn plisio_verdict
plisio_ipn-IsToppedUp decimals verified p order i w e found owed =
    ipn-IsToppedUp PaymentGateway.plisio IdempotencyKey.plisio order i (plisio_verdict decimals)
      verified p w e found owed (plisio_on-IsCapped decimals i owed p.status p)
