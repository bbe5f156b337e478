-- ===== src/Webhook/Topups.antt =====
-- Callbacks for one order: the first that has an effect is the last.
use mathlib.Core.Path.{subst}
use abr_out.Prelude.{
  ℕ, some, Bool, true, false, ◌≡◌, ◌≢◌, ◌⊎◌, refl, sym, ap, ◌∙◌, inl, inr, arith, Bool-cases,
  Option-cases,
}
use abr_out.Prelude.Keyed.{first_row-update}
use abr_out.Models.{Db, PaymentIntent, PaymentGateway, IdempotencyKey, payment_pending}
use abr_out.Outside.{World, Message}
use abr_out.Wallet.{commit, commit-some}
use abr_out.Payment.{Decimals, Payload, Verdict, nowpayments_verdict, plisio_verdict}
use abr_out.Webhook.{
  Reply, is_order, intent_of, write_intent, confirm_intent, fail_intent, commit_with, credit,
  settle, on_order, ipn, nowpayments_ipn, plisio_ipn,
}

module _ (gateway : PaymentGateway) (key : ℕ → IdempotencyKey) (order : ℕ) where
  -- The order's intent is there and no longer pending.
  abbrev pub IsFinal : Db → Type 0
  IsFinal db =
      (i : PaymentIntent) × (intent_of gateway order db ≡ some i)
      × (payment_pending i.status ≡ false)

  pub commit_with-cases :
      (db : Db) (m : Message) (user : ℕ) (w : World) (Q : World → Type 0)
      → Q w
      → ((v : World) → v.db ≡ db → Q v)
      → Q (commit_with db m user w).0
  commit_with-cases db m user w Q stays goes = elim (Option-cases (commit db)) [
    | inl failed ↦ rw (failed, commit_with) stays
    | inr (db', went) ↦ rw (went, commit_with) (goes _ (commit-some db went).0)
  ]

  rewritten :
      (i : PaymentIntent) (f : PaymentIntent → PaymentIntent) (db : Db)
      → ((x : PaymentIntent) → is_order gateway order (f x) ≡ is_order gateway order x)
      → payment_pending (f i).status ≡ false
      → intent_of gateway order db ≡ some i
      → IsFinal (write_intent i.id f db)
  rewritten i f db keep ended found = (
    f i,
    first_row-update (λ x. x.id) (is_order gateway order) f i db.payment_intents keep found,
    ended,
  )

  -- Whatever is done with an intent changes nothing, or ends it.
  settle-IsFinal :
      (i : PaymentIntent) (verdict : Verdict) (w : World)
      → intent_of gateway order w.db ≡ some i
      → ((settle key order i verdict w).0 ≡ w) ⊎ IsFinal (settle key order i verdict w).0.db
  unfolding settle credit
  settle-IsFinal i Verdict.credit_full w found =
      commit_with-cases _ _ i.user_id w (λ v. (v ≡ w) ⊎ IsFinal v.db) (inl refl)
        (λ v e. inr (
          subst IsFinal (sym e)
            (rewritten i (confirm_intent i.amount) w.db (λ x. refl) refl found)))
  settle-IsFinal i (Verdict.credit_partial a) w found =
      commit_with-cases _ _ i.user_id w (λ v. (v ≡ w) ⊎ IsFinal v.db) (inl refl)
        (λ v e.
          inr (subst IsFinal (sym e) (rewritten i (confirm_intent a) w.db (λ x. refl) refl found)))
  settle-IsFinal i Verdict.fail_payment w found =
      commit_with-cases _ _ i.user_id w (λ v. (v ≡ w) ⊎ IsFinal v.db) (inl refl)
        (λ v e. inr (subst IsFinal (sym e) (rewritten i fail_intent w.db (λ x. refl) refl found)))
  settle-IsFinal i Verdict.fail_dust w found =
      commit_with-cases _ _ i.user_id w (λ v. (v ≡ w) ⊎ IsFinal v.db) (inl refl)
        (λ v e. inr (subst IsFinal (sym e) (rewritten i fail_intent w.db (λ x. refl) refl found)))
  settle-IsFinal i Verdict.wait w found = inl refl
  settle-IsFinal i Verdict.crash w found = inl refl

  module _ (verdict : Payload → PaymentIntent → Verdict) where
    on_order-IsFinal :
        (p : Payload) (w : World)
        → ((on_order gateway key verdict p order w).0 ≡ w)
          ⊎ IsFinal (on_order gateway key verdict p order w).0.db
    unfolding on_order
    on_order-IsFinal p w = elim (Option-cases (intent_of gateway order w.db)) [
      | inl missing ↦ rw (missing, on_order) (inl refl)
      | inr (i, found) ↦ elim (Bool-cases (payment_pending i.status)) [
        | inl waits ↦ rw (found, on_order) (rw waits (settle-IsFinal i (verdict p i) w found))
        | inr closed ↦ rw (found, on_order) (rw closed (inl refl))
      ]
    ]

    on_order-closed :
        (p : Payload) (w : World) → IsFinal w.db → (on_order gateway key verdict p order w).0 ≡ w
    unfolding on_order
    on_order-closed p w (i, found, closed) = rw (found, on_order) (rw closed refl)

    pub ipn-order :
        (p : Payload) (w : World)
        → p.order_id ≡ some order
        → ipn gateway key verdict true (some p) w ≡ on_order gateway key verdict p order w
    unfolding ipn
    ipn-order p w e = ground (arith, e)

    -- After a callback that changed something, no callback for the order changes anything.
    ipn-once :
        (p p' : Payload) (verified : Bool) (w : World)
        → p.order_id ≡ some order
        → p'.order_id ≡ some order
        → (ipn gateway key verdict true (some p) w).0 ≢ w
        → let v = (ipn gateway key verdict true (some p) w).0 in
          (ipn gateway key verdict verified (some p') v).0 ≡ v
    unfolding ipn
    ipn-once p p' false w e e' changed = refl
    ipn-once p p' true w e e' changed =
        let v = (on_order gateway key verdict p order w).0 in
        let first = ap (λ (r : World × Reply). r.0) (ipn-order p w e) in
        let closed : (on_order gateway key verdict p' order v).0 ≡ v = elim (on_order-IsFinal p w) [
          | inl same ↦ absurd (changed (first ∙ same))
          | inr final ↦ on_order-closed p' v final
        ] in
        subst (λ u. (ipn gateway key verdict true (some p') u).0 ≡ u) (sym first)
          (ap (λ (r : World × Reply). r.0) (ipn-order p' v e') ∙ closed)

-- Once a callback of NowPayments for an order had any effect, no callback for that order has one,
-- whatever its payload says and whether its signature is right.
pub nowpayments_ipn-once :
    (decimals : Decimals) (p p' : Payload) (order : ℕ) (verified : Bool) (w : World)
    → p.order_id ≡ some order
    → p'.order_id ≡ some order
    → (nowpayments_ipn decimals true (some p) w).0 ≢ w
    → let first = (nowpayments_ipn decimals true (some p) w).0 in
      (nowpayments_ipn decimals verified (some p') first).0 ≡ first
unfolding nowpayments_ipn
nowpayments_ipn-once decimals p p' order verified w e e' =
    ipn-once PaymentGateway.nowpayments IdempotencyKey.nowpayments order
      (nowpayments_verdict decimals) p p' verified w e e'

-- Once a callback of Plisio for an order had any effect, no callback for that order has one,
-- whatever its payload says and whether its signature is right.
pub plisio_ipn-once :
    (decimals : Decimals) (p p' : Payload) (order : ℕ) (verified : Bool) (w : World)
    → p.order_id ≡ some order
    → p'.order_id ≡ some order
    → (plisio_ipn decimals true (some p) w).0 ≢ w
    → let first = (plisio_ipn decimals true (some p) w).0 in
      (plisio_ipn decimals verified (some p') first).0 ≡ first
unfolding plisio_ipn
plisio_ipn-once decimals p p' order verified w e e' =
    ipn-once PaymentGateway.plisio IdempotencyKey.plisio order (plisio_verdict decimals) p p'
      verified w e e'
