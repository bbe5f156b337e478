-- ===== src/Payout/Process/Run.antt =====
-- How a run of the job treats one row, by the loops that pass it over. The ids are distinct.
use mathlib.Core.Path.{subst}
use abr_out.Prelude.{
  ℕ, List, [], ◌∷◌, some, Bool, true, false, ◌==◌, ◌≡◌, ◌≢◌, refl, sym, ◌∙◌, inl, inr, arith,
  Bool-cases,
}
use abr_out.Prelude.Rows.{contains, first_row, update_rows}
use abr_out.Prelude.Keyed.{IsKey, IsKey-update_rows}
use abr_out.Models.{Db, WithdrawalRequest, withdrawal_pending, withdrawal_submitting}
use abr_out.Outside.{World}
use abr_out.Payout.Client.{PayoutClient, PayoutSettings}
use abr_out.Payout.Process.{
  world, row_of, write_rows, write_row, submit, each, refund, mark_refunded, set_db,
  mark_submitting, mark_all, recover, is_stuck, recover_stuck, submit_pending, poll_receipts,
  is_pending, oldest, process_withdrawals_once,
}
use abr_out.Payout.Process.Rows.{
  row_of-write_other, row_of-write_rows, IsOnce, oldest-IsOnce, oldest-passes,
}
use abr_out.Payout.Process.Writes.{
  Step, IsWriting, writing-IsLocal, submit-IsWriting, Outcome-cases,
}
use abr_out.Payout.Process.Loop.{IsReady, each-keeps}

-- The row i is there and has the property; the ids are distinct.
abbrev pub Row : (WithdrawalRequest → Type 0) → ℕ → Db → Type 0
Row R i db =
    (w : WithdrawalRequest) × (row_of i db ≡ some w)
    × R w
    × IsKey (λ x. x.id) db.withdrawal_requests

abbrev pub IsKeyed : Db → Type 0
IsKeyed db = IsKey (λ x. x.id) db.withdrawal_requests

pub writes-IsKeyed :
    (now : ℕ) (step : Step)
    → IsWriting now step
    → (w : WithdrawalRequest) (v : World) → IsKeyed v.db
    → IsKeyed (world (step w v)).db
unfolding refund write_rows
writes-IsKeyed now step writes w v key =
    writes w v IsKeyed key
      (λ reason msg gas _.
        IsKey-update_rows (λ x. x.id) (λ x. x.id == w.id) (mark_refunded now msg gas) (λ x. refl) _
          key)
      (λ f mark. IsKey-update_rows (λ x. x.id) (λ x. x.id == w.id) f mark.ids _ key)

module _ (R : WithdrawalRequest → Type 0) (i : ℕ) where
  -- A loop whose test fails on the rows with the property keeps such a row.
  pub skipped :
      (now : ℕ) (step : Step) (q : WithdrawalRequest → Bool) (is : List ℕ) (v : World)
      → IsWriting now step
      → ((w : WithdrawalRequest) → R w → q w ≡ false)
      → IsOnce is
      → IsReady q is v.db
      → Row R i v.db
      → Row R i (world (each step is v)).db
  skipped now step q is v writes apart once ready row =
      each-keeps step (writing-IsLocal now step writes) (Row R i) q
        (λ w u found pass (w', here, r, key).
          let ne : i ≢ w.id = λ e.
            let fails = apart w' r in
            let same : some w' ≡ some w =
              sym here ∙ subst (λ k. row_of k u.db ≡ some w) (sym e) found in
            cc in
          (
            w',
            writing-IsLocal now step writes w u i ne ∙ here,
            r,
            writes-IsKeyed now step writes w u key,
          ))
        is v once ready row

IsReady-all :
    (q : WithdrawalRequest → Bool) (is : List ℕ) (db : Db)
    → ((i : ℕ) → contains i is ≡ true → (w : WithdrawalRequest) → row_of i db ≡ some w → q w ≡ true)
    → IsReady q is db
unfolding contains
IsReady-all q [] db pass = tt
IsReady-all q (i ∷ is) db pass =
    (pass i (ground arith), IsReady-all q is db (λ j inside. pass j (ground arith)))

pub oldest-IsReady :
    (n : ℕ) (q : WithdrawalRequest → Bool) (db : Db) → IsKeyed db → IsReady q (oldest n q db) db
oldest-IsReady n q db key =
    IsReady-all q (oldest n q db) db (λ i inside w found. oldest-passes q n i db key inside found)

-- Marking leaves the rows of other ids.
mark_all-other :
    (now i : ℕ) (is : List ℕ) (v : World)
    → contains i is ≡ false
    → row_of i (mark_all now is v).db ≡ row_of i v.db
unfolding mark_all contains
mark_all-other now i [] v out = refl
mark_all-other now i (j ∷ js) v out =
    mark_all-other now i js (set_db v (write_row j (mark_submitting now) v.db)) (ground arith)
    ∙ row_of-write_other (mark_submitting now) j i v.db (λ x. refl) (ground arith)

marked_row :
    (now i : ℕ) (ws : List WithdrawalRequest) {w : WithdrawalRequest}
    → first_row (λ x. x.id == i) (update_rows (λ x. x.id == i) (mark_submitting now) ws) ≡ some w
    → withdrawal_submitting w.status ≡ true
unfolding first_row update_rows
marked_row now i [] h = cc
marked_row now i (x ∷ xs) {w} h = ground (arith, marked_row now i xs {w = w})

-- The rows that are sent are the marked ones.
pub mark_all-IsReady :
    (now : ℕ) (is : List ℕ) (v : World)
    → IsOnce is
    → IsReady (λ w. withdrawal_submitting w.status) is (mark_all now is v).db
unfolding mark_all write_rows
mark_all-IsReady now [] v once = tt
mark_all-IsReady now (i ∷ is) v once =
    let v' = set_db v (write_row i (mark_submitting now) v.db) in
    (
      λ w found.
          marked_row now i v.db.withdrawal_requests
            (sym (mark_all-other now i is v' once.0) ∙ found),
      mark_all-IsReady now is v' once.1,
    )

mark_all-IsKeyed :
    (now : ℕ) (is : List ℕ) (v : World) → IsKeyed v.db → IsKeyed (mark_all now is v).db
unfolding mark_all write_rows
mark_all-IsKeyed now [] v key = key
mark_all-IsKeyed now (i ∷ is) v key =
    mark_all-IsKeyed now is (set_db v (write_row i (mark_submitting now) v.db))
      (IsKey-update_rows (λ x. x.id) (λ x. x.id == i) (mark_submitting now) (λ x. refl) _ key)

module _ (client : PayoutClient) (settings : PayoutSettings) (now i : ℕ)
    (R : WithdrawalRequest → Type 0) where
  module _
      (apart : (w : WithdrawalRequest)
        → R w
        → (withdrawal_pending w.status ≡ false) × (withdrawal_submitting w.status ≡ false)) where
    recover_stuck-Row : (v : World) → Row R i v.db → Row R i (recover_stuck settings now v).db
    unfolding recover_stuck write_rows
    recover_stuck-Row v (w, here, r, key) =
        let fails = (apart w r).1 in
        let found =
          row_of-write_rows (is_stuck settings now) (recover now) i v.db (λ x. refl) here in
        (
          w,
          ground (arith, found, fails),
          r,
          IsKey-update_rows (λ x. x.id) (is_stuck settings now) (recover now) (λ x. refl) _ key,
        )

    -- A row that is neither pending nor being submitted is not touched by the first two parts.
    submit_pending-Row :
        (v : World) → Row R i v.db → Row R i (world (submit_pending client settings now v)).db
    unfolding submit_pending
    submit_pending-Row v (w, here, r, key) =
        let ids = oldest 20 is_pending v.db in
        let once = oldest-IsOnce is_pending 20 v.db key in
        let out : contains i ids ≡ false = elim (Bool-cases (contains i ids)) [
          | inl inside ↦
              let pass = oldest-passes is_pending 20 i v.db key inside here in
              let fails = (apart w r).0 in cc
          | inr outside ↦ outside
        ] in
        skipped R i now (submit client settings now) (λ x. withdrawal_submitting x.status) ids
          (mark_all now ids v) (submit-IsWriting client settings now) (λ x r'. (apart x r').1) once
          (mark_all-IsReady now ids v once)
          (w, mark_all-other now i ids v out ∙ here, r, mark_all-IsKeyed now ids v key)

    module _
        (polled : (v : World)
          → Row R i v.db
          → Row R i (world (poll_receipts client settings now v)).db) where
      pub run-Row :
          (v : World)
          → Row R i v.db
          → Row R i (world (process_withdrawals_once client settings now v)).db
      unfolding process_withdrawals_once
      run-Row v row =
          let sent = submit_pending-Row (recover_stuck settings now v) (recover_stuck-Row v row) in
          elim (Outcome-cases (submit_pending client settings now (recover_stuck settings now v))) [
            | inl (v', e) ↦ rw (e, world) (polled v' (subst (λ o. Row R i (world o).db) e sent))
            | inr (v', e) ↦ rw (e, world) (subst (λ o. Row R i (world o).db) e sent)
          ]
