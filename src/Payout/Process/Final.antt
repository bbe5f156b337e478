-- ===== src/Payout/Process/Final.antt =====
-- What a run of the job cannot do to a row: change a terminal one, or refund a transaction that has
-- no receipt yet.
use mathlib.Core.Path.{subst}
use abr_out.Prelude.{
  ℕ, none, some, true, false, ◌==◌, ◌≡◌, refl, sym, ap, ◌∙◌, Bool-cases, inl, inr, arith,
}
use abr_out.Prelude.Keyed.{IsKey-update_rows}
use abr_out.Models.{WithdrawalRequest, withdrawal_submitted}
use abr_out.Outside.{World}
use abr_out.Payout.Client.{PayoutClient, PayoutSettings}
use abr_out.Payout.Create.{non_terminal}
use abr_out.Payout.Process.{
  world, row_of, write_rows, write_row, check_receipt, mark_dropped, poll_receipts, is_submitted,
  oldest, process_withdrawals_once,
}
use abr_out.Payout.Process.Rows.{row_of-write_row, oldest-IsOnce}
use abr_out.Payout.Process.Writes.{
  writing-IsLocal, check_receipt-IsWriting, check_receipt-cases, await_receipt-stamps,
}
use abr_out.Payout.Process.Loop.{each-keeps}
use abr_out.Payout.Process.Run.{Row, IsKeyed, skipped, oldest-IsReady, run-Row, writes-IsKeyed}

module _ (client : PayoutClient) (settings : PayoutSettings) (now i : ℕ) where
  polled-final :
      (w : WithdrawalRequest)
      → non_terminal w.status ≡ false
      → (v : World) → Row (λ x. x ≡ w) i v.db
      → Row (λ x. x ≡ w) i (world (poll_receipts client settings now v)).db
  unfolding poll_receipts
  polled-final w ended v (x, here, same, key) =
      skipped (λ x. x ≡ w) i now (check_receipt client settings now) is_submitted
        (oldest 50 is_submitted v.db) v (check_receipt-IsWriting client settings now)
        (λ x e. ground (arith, ap (λ y. y.status) e, ended))
        (oldest-IsOnce is_submitted 50 v.db key) (oldest-IsReady 50 is_submitted v.db key)
        (x, here, same, key)

-- Where the ids of the requests are distinct, a run of the job leaves every row that is confirmed,
-- failed or refunded as it is, whatever it does to the others.
pub process_withdrawals-final :
    (client : PayoutClient) (settings : PayoutSettings) (now i : ℕ) (w : WithdrawalRequest)
    (v : World)
    → IsKeyed v.db
    → row_of i v.db ≡ some w
    → non_terminal w.status ≡ false
    → row_of i (world (process_withdrawals_once client settings now v)).db ≡ some w
process_withdrawals-final client settings now i w v key here ended =
    let after =
      run-Row client settings now i (λ x. x ≡ w)
        (λ x e.
          let s = ap (λ y. y.status) e in (ground (arith, s, ended), ground (arith, s, ended)))
        (polled-final client settings now i w ended) v (w, here, refl, key) in
    after.1 ∙ ap some after.2

-- The row waits for the receipt of this transaction.
pub record IsWaiting (hash : ℕ) (w : WithdrawalRequest) : Type 0 where
  pub submitted : withdrawal_submitted w.status ≡ true
  pub sent : w.tx_hash ≡ some hash

some-injective : {a b : WithdrawalRequest} → some a ≡ some b → a ≡ b
some-injective h = cc

module _ (client : PayoutClient) (settings : PayoutSettings) (now i hash : ℕ) where
  module _ (waits : client.get_receipt hash ≡ none) where
    stamped :
        (x : WithdrawalRequest) (v : World)
        → row_of i v.db ≡ some x
        → IsWaiting hash x
        → IsKeyed v.db
        → Row (IsWaiting hash) i (write_row i (mark_dropped now) v.db)
    unfolding write_rows
    stamped x v here r key = (
      mark_dropped now x,
      row_of-write_row (mark_dropped now) i v.db (λ y. refl) here,
      record { submitted = r.submitted; sent = r.sent },
      IsKey-update_rows (λ y. y.id) (λ y. y.id == i) (mark_dropped now) (λ y. refl) _ key,
    )

    check-IsWaiting :
        (w : WithdrawalRequest) (v : World)
        → row_of w.id v.db ≡ some w
        → Row (IsWaiting hash) i v.db
        → Row (IsWaiting hash) i (world (check_receipt client settings now w v)).db
    check-IsWaiting w v found (x, here, r, key) = elim (Bool-cases (i == w.id)) [
      | inr other ↦ (
        x,
        writing-IsLocal now (check_receipt client settings now)
              (check_receipt-IsWriting client settings now) w v i (ground (arith, other))
            ∙ here,
        r,
        writes-IsKeyed now (check_receipt client settings now)
            (check_receipt-IsWriting client settings now) w v key,
      )
      | inl own ↦
          let e : w.id ≡ i = ground (arith, own) in
          let same : w ≡ x =
            some-injective (sym found ∙ subst (λ k. row_of k v.db ≡ some x) (sym e) here) in
          check_receipt-cases client settings now w v (λ o. Row (IsWaiting hash) i (world o).db)
            (λ _. (x, here, r, key))
            (λ h _ _.
              await_receipt-stamps client settings now w h v (Row (IsWaiting hash) i)
                (x, here, r, key)
                (subst (λ k. Row (IsWaiting hash) i (write_row k (mark_dropped now) v.db)) (sym e)
                  (stamped x v here r key)))
            (λ h rec set mined.
              let set' : w.tx_hash ≡ some hash = ap (λ y. y.tx_hash) same ∙ r.sent in
              absurd (ground (arith, set, set', mined, waits)))
    ]

    polled-IsWaiting :
        (v : World)
        → Row (IsWaiting hash) i v.db
        → Row (IsWaiting hash) i (world (poll_receipts client settings now v)).db
    unfolding poll_receipts
    polled-IsWaiting v row =
        let key = row.3 in
        each-keeps (check_receipt client settings now)
          (writing-IsLocal now (check_receipt client settings now)
            (check_receipt-IsWriting client settings now))
          (Row (IsWaiting hash) i) is_submitted (λ w u found _ kept. check-IsWaiting w u found kept)
          (oldest 50 is_submitted v.db) v (oldest-IsOnce is_submitted 50 v.db key)
          (oldest-IsReady 50 is_submitted v.db key) row

-- Where the ids of the requests are distinct, a run of the job leaves a submitted request, whose
-- transaction has no receipt yet, submitted and with the same transaction, whatever the other
-- answers of the node are.
pub process_withdrawals-IsWaiting :
    (client : PayoutClient) (settings : PayoutSettings) (now i hash : ℕ) (w : WithdrawalRequest)
    (v : World)
    → IsKeyed v.db
    → row_of i v.db ≡ some w
    → IsWaiting hash w
    → client.get_receipt hash ≡ none
    → (w' : WithdrawalRequest) × (row_of i
          (world (process_withdrawals_once client settings now v)).db
        ≡ some w')
      × IsWaiting hash w'
process_withdrawals-IsWaiting client settings now i hash w v key here r waits =
    let after =
      run-Row client settings now i (IsWaiting hash)
        (λ x h. (ground (arith, h.submitted), ground (arith, h.submitted)))
        (polled-IsWaiting client settings now i hash waits) v (w, here, r, key) in
    (after.0, after.1, after.2)
