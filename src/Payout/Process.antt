-- ===== src/Payout/Process.antt =====
-- app/worker/jobs/process_withdrawals.py. The rows are read again by their ids where the code holds
-- on to an object of the session, which follows its row. `now` is the clock of the run; a commit
-- stamps it on the rows that it changed (`onupdate`). A commit that inserts a refund may meet the
-- UNIQUE key of an earlier one: that exception ends the run, with what was committed before. The
-- job runs alone, so no row is locked by another run and skipped.
pub mod Rows
pub mod Writes
pub mod Loop
pub mod Run
pub mod Settled
pub mod Final
use abr_out.Prelude.{
  ℕ, zero, suc, ◌+◌, ◌/◌, ◌*◌, List, [], ◌∷◌, Option, none, some, Bool, true, false, ◌&&◌, ◌==◌,
  ltb, leb, is_some, if◌then◌else◌,
}
use abr_out.Prelude.Rows.{select, first_row, update_rows, sort_ids}
use abr_out.Models.{
  Db, WithdrawalRequest, WithdrawalStatus, ErrorMsg, Reason, withdrawal_pending,
  withdrawal_submitting, withdrawal_submitted, WalletTransaction,
}
use abr_out.Outside.{World, Effect, Message, emit}
use abr_out.Wallet.{commit, refund_failed_withdrawal}
use abr_out.Payout.Client.{
  PayoutClient, PayoutSettings, SignedTransfer, Signing, signed, raised, Receipt,
}
use mathlib.Core.List.{map}

-- Whether a step went through, or an exception left the job.
pub data Outcome : Type 0 where
  done aborted : World → Outcome

abbrev pub world : Outcome → World
world (done w) = w
world (aborted w) = w

abbrev pub is_refunded : WithdrawalStatus → Bool
is_refunded WithdrawalStatus.refunded = true
is_refunded _ = false

abbrev pub row_of : ℕ → Db → Option WithdrawalRequest
row_of i db = first_row (λ w. w.id == i) db.withdrawal_requests

-- Attributes of the row are set and committed; `updated_at` is stamped.
unfoldable pub write_rows :
    (WithdrawalRequest → Bool) → (WithdrawalRequest → WithdrawalRequest) → Db → Db
write_rows p f db = record db { withdrawal_requests = update_rows p f db.withdrawal_requests }

abbrev pub write_row : ℕ → (WithdrawalRequest → WithdrawalRequest) → Db → Db
write_row i f db = write_rows (λ w. w.id == i) f db

abbrev pub set_db : World → Db → World
set_db w db = record w { db = db }

-- `order_by(id.asc()).limit(n)`
unfoldable pub limit : ℕ → List ℕ → List ℕ
limit zero is = []
limit (suc n) [] = []
limit (suc n) (i ∷ is) = i ∷ limit n is

unfoldable pub oldest : ℕ → (WithdrawalRequest → Bool) → Db → List ℕ
oldest n p db = limit n (sort_ids (map (λ w. w.id) (select p db.withdrawal_requests)))

-- `w.status = failed; w.error_msg = …; await refund_failed_withdrawal(…); await session.commit()`
abbrev pub mark_refunded : ℕ → ErrorMsg → Option ℕ → WithdrawalRequest → WithdrawalRequest
mark_refunded now msg gas w = record w {
  status = WithdrawalStatus.refunded;
  error_msg = some msg;
  gas_used = gas;
  updated_at = now;
}

unfoldable pub refund : ℕ → WithdrawalRequest → Reason → ErrorMsg → Option ℕ → Db → Db
refund now w reason msg gas db = record (write_row w.id (mark_refunded now msg gas) db) {
  wallet_transactions = (refund_failed_withdrawal w (some reason)).0 ∷ db.wallet_transactions;
}

unfoldable pub commit_refund : WithdrawalRequest → Message → Db → World → Outcome
commit_refund w m db v = elim (commit db) [
  | none ↦ aborted v
  | some db' ↦ done (emit (Effect.message w.user_id m) (set_db v db'))
]

-- The gas price of the quote stays, unless there is none or it is zero.
abbrev pub kept_gas : Option ℕ → ℕ → Option ℕ
kept_gas none gas = some gas
kept_gas (some g) gas = if g == 0 then some gas else some g

abbrev pub mark_submitted : ℕ → SignedTransfer → WithdrawalRequest → WithdrawalRequest
mark_submitted now s w = record w {
  tx_hash = some s.tx_hash;
  status = WithdrawalStatus.submitted;
  gas_price_wei = kept_gas w.gas_price_wei s.gas_price_wei;
  updated_at = now;
}

abbrev pub mark_confirmed : ℕ → Option ℕ → WithdrawalRequest → WithdrawalRequest
mark_confirmed now gas w = record w {
  status = WithdrawalStatus.confirmed;
  gas_used = gas;
  updated_at = now;
}

-- `gas_used` is written only if the receipt has it.
abbrev pub gas_of : Receipt → WithdrawalRequest → Option ℕ
gas_of r w = elim r.gas_used [ none ↦ w.gas_used | some g ↦ some g ]

abbrev pub minute : ℕ
minute = 60 * 1_000_000

-- The stamp names the minute of the run.
abbrev pub mark_dropped : ℕ → WithdrawalRequest → WithdrawalRequest
mark_dropped now w = record w {
  error_msg = some (ErrorMsg.dropped_mempool (now / minute));
  updated_at = now;
}

abbrev pub same_stamp : ℕ → Option ErrorMsg → Bool
same_stamp m (some (ErrorMsg.dropped_mempool n)) = n == m
same_stamp m _ = false

abbrev pub recover : ℕ → WithdrawalRequest → WithdrawalRequest
recover now w = record w {
  status = WithdrawalStatus.pending;
  error_msg = some ErrorMsg.recovered;
  updated_at = now;
}

abbrev pub is_pending : WithdrawalRequest → Bool
is_pending w = withdrawal_pending w.status

abbrev pub is_submitted : WithdrawalRequest → Bool
is_submitted w = withdrawal_submitted w.status

-- A loop over rows, which an exception leaves.
unfoldable pub on_row : (WithdrawalRequest → World → Outcome) → ℕ → World → Outcome
on_row step i v = elim (row_of i v.db) [ none ↦ done v | some w ↦ step w v ]

unfoldable pub each : (WithdrawalRequest → World → Outcome) → List ℕ → World → Outcome
each step [] v = done v
each step (i ∷ is) v = elim (on_row step i v) [
  | done v' ↦ each step is v'
  | aborted v' ↦ aborted v'
]

module _ (settings : PayoutSettings) (now : ℕ) where
  abbrev pub is_stuck : WithdrawalRequest → Bool
  is_stuck w =
      withdrawal_submitting w.status && ltb (w.updated_at + settings.submitting_recovery) now

  -- (1) recovery
  unfoldable pub recover_stuck : World → World
  recover_stuck v = set_db v (write_rows is_stuck (recover now) v.db)

abbrev pub mark_submitting : ℕ → WithdrawalRequest → WithdrawalRequest
mark_submitting now w = record w { status = WithdrawalStatus.submitting; updated_at = now }

unfoldable pub mark_all : ℕ → List ℕ → World → World
mark_all now [] v = v
mark_all now (i ∷ is) v = mark_all now is (set_db v (write_row i (mark_submitting now) v.db))

module _ (client : PayoutClient) (settings : PayoutSettings) (now : ℕ) where
  -- `_submit`: sign, persist the hash, then broadcast. What the broadcast raises is only logged.
  unfoldable pub submit : WithdrawalRequest → World → Outcome
  submit w v = elim (client.sign_transfer w.id w.to_address w.net_usdt w.gas_price_wei) [
    | raised text ↦
        commit_refund w Message.payout_failed
          (refund now w Reason.sign_failed (ErrorMsg.sign_failed text) w.gas_used v.db) v
    | signed s ↦ done (
        emit (Effect.message w.user_id Message.payout_sent) (
          emit (Effect.broadcast s.raw_tx) (set_db v (write_row w.id (mark_submitted now s) v.db))))
  ]

  unfoldable pub confirm : WithdrawalRequest → Receipt → World → Outcome
  confirm w r v =
      if r.status == 1
      then done (
          emit (Effect.message w.user_id Message.payout_confirmed)
            (set_db v (write_row w.id (mark_confirmed now (gas_of r w)) v.db)))
      else commit_refund w Message.payout_reverted
          (refund now w Reason.on_chain_reverted ErrorMsg.on_chain_reverted (gas_of r w) v.db) v

  -- A transaction that the node forgot freezes the row: there is no refund.
  unfoldable pub await_receipt : WithdrawalRequest → ℕ → World → Outcome
  await_receipt w hash v =
      if leb (w.updated_at + settings.submitted_alert) now
      then if client.get_transaction hash
        then done v
        else if same_stamp (now / minute) w.error_msg
        then done v
        else done (set_db v (write_row w.id (mark_dropped now) v.db))
      else done v

  -- `_check_receipt`
  unfoldable pub check_receipt : WithdrawalRequest → World → Outcome
  check_receipt w v = elim w.tx_hash [
    | none ↦ done v
    | some hash ↦ elim (client.get_receipt hash) [
      | none ↦ await_receipt w hash v
      | some r ↦ confirm w r v
    ]
  ]

  -- (2) submit pending rows
  unfoldable pub submit_pending : World → Outcome
  submit_pending v = let ids = oldest 20 is_pending v.db in each submit ids (mark_all now ids v)

  -- (3) confirmation polling
  unfoldable pub poll_receipts : World → Outcome
  poll_receipts v = each check_receipt (oldest 50 is_submitted v.db) v

  -- `process_withdrawals_once`
  unfoldable pub process_withdrawals_once : World → Outcome
  process_withdrawals_once v = elim (submit_pending (recover_stuck settings now v)) [
    | done v' ↦ poll_receipts v'
    | aborted v' ↦ aborted v'
  ]
