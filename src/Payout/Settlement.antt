-- ===== src/Payout/Settlement.antt =====
-- Creating a withdrawal and running the job keep the books of the withdrawals.
use mathlib.Core.Path.{subst}
use abr_out.Prelude.{
  ℕ, List, [], ◌∷◌, none, some, true, false, ◌==◌, ◌≡◌, refl, sym, inl, inr, arith, Bool-cases,
  Option-cases,
}
use abr_out.Prelude.Int.{int_laws, parts_of_eq}
use abr_out.Prelude.Rows.{update_rows, first_row, exists_row, sum_rows, unique_on}
use abr_out.Models.{Db, WithdrawalRequest, withdrawal_submitting}
use abr_out.Outside.{World}
use abr_out.Wallet.{debit_for_withdrawal}
use abr_out.Payout.Client.{PayoutClient, PayoutSettings}
use abr_out.Payout.Create.{Request, ok, create_withdrawal}
use abr_out.Payout.Create.Checked.{create_withdrawal-IsGranted}
use abr_out.Payout.Process.{
  world, row_of, write_rows, write_row, set_db, submit, check_receipt, recover_stuck,
  mark_submitting, mark_all, submit_pending, poll_receipts, is_pending, is_submitted, oldest,
  process_withdrawals_once,
}
use abr_out.Payout.Process.Rows.{IsOnce, oldest-IsOnce, row_of-write_other, row_of-id}
use abr_out.Payout.Process.Writes.{submit-IsWriting, check_receipt-IsWriting, Outcome-cases}
use abr_out.Payout.Process.Loop.{IsReady, IsReady-same}
use abr_out.Payout.Process.Run.{oldest-IsReady, mark_all-IsReady}
use abr_out.Payout.Process.Settled.{
  IsSettled, mark-IsSettled, loop-IsSettled, recover_stuck-IsSettled,
}

write-missing :
    (f : WithdrawalRequest → WithdrawalRequest) (i : ℕ) (ws : List WithdrawalRequest)
    → first_row (λ x. x.id == i) ws ≡ none
    → update_rows (λ x. x.id == i) f ws ≡ ws
unfolding first_row update_rows
write-missing f i [] h = refl
write-missing f i (w ∷ ws) h = ground (arith, write-missing f i ws)

mark_one-IsSettled :
    (now i : ℕ) (db : Db)
    → ((w : WithdrawalRequest) → row_of i db ≡ some w → is_pending w ≡ true)
    → IsSettled db
    → IsSettled (write_row i (mark_submitting now) db)
unfolding write_rows
mark_one-IsSettled now i db ready s = elim (Option-cases (row_of i db)) [
  | inl gone ↦
      subst (λ ws. IsSettled (record db { withdrawal_requests = ws }))
        (sym (write-missing (mark_submitting now) i db.withdrawal_requests gone)) s
  | inr (w, found) ↦
      let e : w.id ≡ i = row_of-id i db.withdrawal_requests found in
      subst (λ k. IsSettled (write_row k (mark_submitting now) db)) e
        (mark-IsSettled w (mark_submitting now) db
          record { ids = λ x. refl; users = λ x. refl; amounts = λ x. refl; live = λ x _. refl }
          (subst (λ k. row_of k db ≡ some w) (sym e) found) (ground (arith, ready w found)) s)
]

mark_all-IsSettled :
    (now : ℕ) (is : List ℕ) (v : World)
    → IsOnce is
    → IsReady is_pending is v.db
    → IsSettled v.db
    → IsSettled (mark_all now is v).db
unfolding mark_all
mark_all-IsSettled now [] v once ready s = s
mark_all-IsSettled now (i ∷ is) v once ready s =
    let v' = set_db v (write_row i (mark_submitting now) v.db) in
    mark_all-IsSettled now is v' once.1
      (IsReady-same is_pending i is v.db v'.db once.0
        (λ j ne. row_of-write_other (mark_submitting now) i j v.db (λ x. refl) ne) ready.1)
      (mark_one-IsSettled now i v.db ready.0 s)

module _ (client : PayoutClient) (settings : PayoutSettings) (now : ℕ) where
  submit_pending-IsSettled :
      (v : World) → IsSettled v.db → IsSettled (world (submit_pending client settings now v)).db
  unfolding submit_pending
  submit_pending-IsSettled v s =
      let ids = oldest 20 is_pending v.db in
      let once = oldest-IsOnce is_pending 20 v.db s.keyed in
      loop-IsSettled now (submit client settings now) (λ w. withdrawal_submitting w.status) ids
        (mark_all now ids v) (submit-IsWriting client settings now) (λ w h. ground (arith, h)) once
        (mark_all-IsReady now ids v once)
        (mark_all-IsSettled now ids v once (oldest-IsReady 20 is_pending v.db s.keyed) s)

  poll_receipts-IsSettled :
      (v : World) → IsSettled v.db → IsSettled (world (poll_receipts client settings now v)).db
  unfolding poll_receipts
  poll_receipts-IsSettled v s =
      loop-IsSettled now (check_receipt client settings now) is_submitted
        (oldest 50 is_submitted v.db) v (check_receipt-IsWriting client settings now)
        (λ w h. ground (arith, h)) (oldest-IsOnce is_submitted 50 v.db s.keyed)
        (oldest-IsReady 50 is_submitted v.db s.keyed) s

-- A run of the job, however it ends, keeps the books of the withdrawals settled: the ids stay
-- distinct, and for every user the payouts and refunds in the ledger and the amounts of the requests
-- that are not refunded add up to zero.
pub process_withdrawals-IsSettled :
    (client : PayoutClient) (settings : PayoutSettings) (now : ℕ) (v : World)
    → IsSettled v.db
    → IsSettled (world (process_withdrawals_once client settings now v)).db
unfolding process_withdrawals_once
process_withdrawals-IsSettled client settings now v s =
    let v₁ = recover_stuck settings now v in
    let sent =
      submit_pending-IsSettled client settings now v₁ (recover_stuck-IsSettled settings now v s) in
    elim (Outcome-cases (submit_pending client settings now v₁)) [
      | inl (v', e) ↦
          rw (e, world)
            (poll_receipts-IsSettled client settings now v'
              (subst (λ o. IsSettled (world o).db) e sent))
      | inr (v', e) ↦ rw (e, world) (subst (λ o. IsSettled (world o).db) e sent)
    ]

-- Creating a withdrawal under an id that no request has keeps the ids distinct and, for every user,
-- the payouts and refunds in the ledger and the amounts of the requests that are not refunded at a
-- sum of zero, if they were so.
pub create_withdrawal-IsSettled :
    (client : PayoutClient) (settings : PayoutSettings) (now id token : ℕ) (r : Request) (db : Db)
    {db' : Db} {w : WithdrawalRequest}
    → exists_row (λ x. id == x.id) db.withdrawal_requests ≡ false
    → create_withdrawal client settings now id token r db ≡ ok (db', w)
    → IsSettled db
    → IsSettled db'
unfolding unique_on sum_rows debit_for_withdrawal
create_withdrawal-IsSettled client settings now id token r db {db'} {w} fresh h s =
    let g = create_withdrawal-IsGranted client settings now id token r db h in
    rw g.staged record {
      keyed = rw g.numbered (rw fresh s.keyed);
      balanced = λ user.
          let before = s.balanced user in
          elim (Bool-cases (w.user_id == user)) [
            | inl own ↦ rw (own, g.waits) (omega (int_laws, parts_of_eq before))
            | inr other ↦ rw other (omega (int_laws, parts_of_eq before))
          ];
    }
