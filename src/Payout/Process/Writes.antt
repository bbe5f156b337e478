-- ===== src/Payout/Process/Writes.antt =====
-- What one step of the job writes: nothing, a refund of its row, or a mark on its row.
use abr_out.Prelude.{
  ℕ, ◌+◌, ◌/◌, leb, Option, none, some, false, ◌==◌, ◌≡◌, ◌≢◌, refl, sym, ap, ◌∙◌, inl, inr, arith,
  Bool-cases, Option-cases,
}
use mathlib.Core.Path.{subst}
use abr_out.Prelude.{◌⊎◌}
use abr_out.Models.{Db, WithdrawalRequest, Reason, ErrorMsg}
use abr_out.Outside.{World, Message}
use abr_out.Wallet.{commit, commit-some}
use abr_out.Payout.Client.{
  PayoutClient, PayoutSettings, Receipt, Signing, SignedTransfer, signed, raised,
}
use abr_out.Payout.Process.{
  Outcome, done, aborted, world, row_of, write_row, refund, commit_refund, submit, confirm,
  await_receipt, check_receipt, mark_refunded, mark_submitted, mark_confirmed, mark_dropped, gas_of,
  same_stamp, minute, is_refunded,
}
use abr_out.Payout.Process.Rows.{row_of-write_other}

abbrev pub Step : Type 0
Step = WithdrawalRequest → World → Outcome

-- The step leaves the rows of other ids.
abbrev pub IsLocal : Step → Type 0
IsLocal step =
    (w : WithdrawalRequest) (v : World) (j : ℕ)
    → j ≢ w.id
    → row_of j (world (step w v)).db ≡ row_of j v.db

pub Signing-cases :
    (s : Signing) → ((text : ℕ) × (s ≡ raised text)) ⊎ ((t : SignedTransfer) × (s ≡ signed t))
Signing-cases (raised text) = inl (text, refl)
Signing-cases (signed t) = inr (t, refl)

pub Outcome-cases : (o : Outcome) → ((v : World) × (o ≡ done v)) ⊎ ((v : World) × (o ≡ aborted v))
Outcome-cases (done v) = inl (v, refl)
Outcome-cases (aborted v) = inr (v, refl)

-- A refund is committed, or nothing is.
pub commit_refund-cases :
    (w : WithdrawalRequest) (m : Message) (db : Db) (v : World) (P : Db → Type 0)
    → (commit db ≡ some db → P db)
    → P v.db
    → P (world (commit_refund w m db v)).db
unfolding commit_refund
commit_refund-cases w m db v P goes stays = elim (Option-cases (commit db)) [
  | inl failed ↦ rw (failed, world) stays
  | inr (db', went) ↦
      let same = (commit-some db went).0 in
      rw (went, world) (subst P (sym same) (goes (went ∙ ap some same)))
]

-- A write that keeps what identifies a row and what it is worth, and does not refund it.
pub record IsMark (f : WithdrawalRequest → WithdrawalRequest) : Type 0 where
  pub ids : (x : WithdrawalRequest) → (f x).id ≡ x.id
  pub users : (x : WithdrawalRequest) → (f x).user_id ≡ x.user_id
  pub amounts : (x : WithdrawalRequest) → (f x).amount_usd ≡ x.amount_usd
  pub live :
      (x : WithdrawalRequest) → is_refunded x.status ≡ false → is_refunded (f x).status ≡ false

-- A step leaves the tables, or commits a refund of its row, or marks its row.
abbrev pub IsWriting : ℕ → Step → Type 1
IsWriting now step =
    (w : WithdrawalRequest) (v : World) (Q : Db → Type 0)
    → Q v.db
    → ((reason : Reason) (msg : ErrorMsg) (gas : Option ℕ)
        → commit (refund now w reason msg gas v.db) ≡ some (refund now w reason msg gas v.db)
        → Q (refund now w reason msg gas v.db))
    → ((f : WithdrawalRequest → WithdrawalRequest) → IsMark f → Q (write_row w.id f v.db))
    → Q (world (step w v)).db

module _ (client : PayoutClient) (settings : PayoutSettings) (now : ℕ) where
  pub submit-IsWriting : IsWriting now (submit client settings now)
  unfolding submit
  submit-IsWriting w v Q stays refunds marks =
      elim (Signing-cases (client.sign_transfer w.id w.to_address w.net_usdt w.gas_price_wei)) [
        | inl (text, e) ↦
            rw (e, world)
              (commit_refund-cases w Message.payout_failed _ v Q
                (refunds Reason.sign_failed (ErrorMsg.sign_failed text) w.gas_used) stays)
        | inr (s, e) ↦
            rw (e, world)
              (marks (mark_submitted now s) record {
                ids = λ x. refl;
                users = λ x. refl;
                amounts = λ x. refl;
                live = λ x _. refl;
              })
      ]

  confirm-IsWriting : (r : Receipt) → IsWriting now (λ w. confirm client settings now w r)
  unfolding confirm
  confirm-IsWriting r w v Q stays refunds marks = elim (Bool-cases (r.status == 1)) [
    | inl mined ↦
        rw (mined, world)
          (marks (mark_confirmed now (gas_of r w))
            record { ids = λ x. refl; users = λ x. refl; amounts = λ x. refl; live = λ x _. refl })
    | inr reverted ↦
        rw (reverted, world)
          (commit_refund-cases w Message.payout_reverted _ v Q
            (refunds Reason.on_chain_reverted ErrorMsg.on_chain_reverted (gas_of r w)) stays)
  ]

  -- Without a receipt the row is at most stamped.
  pub await_receipt-stamps :
      (w : WithdrawalRequest) (hash : ℕ) (v : World) (Q : Db → Type 0)
      → Q v.db
      → Q (write_row w.id (mark_dropped now) v.db)
      → Q (world (await_receipt client settings now w hash v)).db
  unfolding await_receipt
  await_receipt-stamps w hash v Q stays stamps =
      elim (Bool-cases (leb (w.updated_at + settings.submitted_alert) now)) [
        | inr early ↦ rw (early, world) stays
        | inl late ↦ elim (Bool-cases (client.get_transaction hash)) [
          | inl known ↦ rw (late, known, world) stays
          | inr gone ↦ elim (Bool-cases (same_stamp (now / minute) w.error_msg)) [
            | inl stamped ↦ rw (late, gone, stamped, world) stays
            | inr fresh ↦ rw (late, gone, fresh, world) stamps
          ]
        ]
      ]

  -- What the check of a row comes to.
  pub check_receipt-cases :
      (w : WithdrawalRequest) (v : World) (Q : Outcome → Type 0)
      → (w.tx_hash ≡ none → Q (done v))
      → ((hash : ℕ)
          → w.tx_hash ≡ some hash
          → client.get_receipt hash ≡ none
          → Q (await_receipt client settings now w hash v))
      → ((hash : ℕ) (r : Receipt)
          → w.tx_hash ≡ some hash
          → client.get_receipt hash ≡ some r
          → Q (confirm client settings now w r v))
      → Q (check_receipt client settings now w v)
  unfolding check_receipt
  check_receipt-cases w v Q unset waits mined = elim (Option-cases w.tx_hash) [
    | inl e ↦ subst Q (ground arith) (unset e)
    | inr (hash, e) ↦ elim (Option-cases (client.get_receipt hash)) [
      | inl e' ↦ subst Q (ground arith) (waits hash e e')
      | inr (r, e') ↦ subst Q (ground arith) (mined hash r e e')
    ]
  ]

  pub check_receipt-IsWriting : IsWriting now (check_receipt client settings now)
  check_receipt-IsWriting w v Q stays refunds marks =
      check_receipt-cases w v (λ o. Q (world o).db) (λ _. stays)
        (λ hash _ _. await_receipt-stamps w hash v Q stays (
          marks (mark_dropped now)
            record { ids = λ x. refl; users = λ x. refl; amounts = λ x. refl; live = λ x h. h }))
        (λ hash r _ _. confirm-IsWriting r w v Q stays refunds marks)

-- A step that writes so leaves the rows of other ids.
pub writing-IsLocal : (now : ℕ) (step : Step) → IsWriting now step → IsLocal step
unfolding refund
writing-IsLocal now step writes w v j ne =
    writes w v (λ db. row_of j db ≡ row_of j v.db) refl
      (λ reason msg gas _.
        row_of-write_other (mark_refunded now msg gas) w.id j v.db (λ x. refl) ne)
      (λ f mark. row_of-write_other f w.id j v.db mark.ids ne)
