-- ===== src/Payout/Process/Settled.antt =====
-- The books of the withdrawals: what the ledger paid out to a user, refunds taken off, is what the
-- user's requests that are not refunded amount to.
use mathlib.Core.Path.{subst}
use abr_out.Prelude.{
  ℕ, List, [], ◌∷◌, Option, some, Bool, true, false, not, ◌&&◌, ◌==◌, ◌≡◌, refl, inl, inr, arith,
  Bool-cases, if◌then◌else◌,
}
use abr_out.Prelude.Int.{ℤ, pos, ◌+ℤ◌, int_laws, parts_of_eq}
use abr_out.Prelude.Rows.{update_rows, first_row, exists_row, sum_rows, unique_on}
use abr_out.Prelude.Keyed.{IsKey, IsKey-update_rows}
use abr_out.Models.{Db, WalletTransaction, WithdrawalRequest, TxnType, Reason, ErrorMsg}
use abr_out.Outside.{World}
use abr_out.Payout.Process.Rows.{IsOnce}
use abr_out.Payout.Process.Writes.{Step, IsMark, IsWriting, writing-IsLocal}
use abr_out.Payout.Process.Loop.{IsReady, each-keeps}
use abr_out.Wallet.{refund_failed_withdrawal}
use abr_out.Payout.Client.{PayoutSettings}
use abr_out.Payout.Process.{
  world, row_of, write_rows, write_row, refund, recover, is_stuck, recover_stuck, mark_refunded,
  each, is_refunded,
}

abbrev moves_payout : TxnType → Bool
moves_payout TxnType.payout = true
moves_payout TxnType.refund = true
moves_payout _ = false

abbrev pub paid : ℕ → WalletTransaction → ℤ
paid user t = if t.user_id == user && moves_payout t.type then t.amount else pos 0

abbrev pub held : ℕ → WithdrawalRequest → ℤ
held user w = if w.user_id == user && not (is_refunded w.status) then w.amount_usd else pos 0

pub record IsSettled (db : Db) : Type 0 where
  pub keyed : IsKey (λ w. w.id) db.withdrawal_requests
  pub balanced :
      (user : ℕ)
      → sum_rows (paid user) db.wallet_transactions +ℤ sum_rows (held user) db.withdrawal_requests
        ≡ pos 0

module _ (g : WithdrawalRequest → ℤ) (f : WithdrawalRequest → WithdrawalRequest) where
  write-absent :
      (i : ℕ) (ws : List WithdrawalRequest)
      → exists_row (λ r. i == r.id) ws ≡ false
      → update_rows (λ x. x.id == i) f ws ≡ ws
  unfolding exists_row update_rows
  write-absent i [] out = refl
  write-absent i (w ∷ ws) out = ground (arith, write-absent i ws)

  -- A write to one row moves a sum by that row.
  sum-write :
      (i : ℕ) (ws : List WithdrawalRequest) {w : WithdrawalRequest}
      → IsKey (λ r. r.id) ws
      → first_row (λ x. x.id == i) ws ≡ some w
      → sum_rows g (update_rows (λ x. x.id == i) f ws) +ℤ g w ≡ sum_rows g ws +ℤ g (f w)
  unfolding unique_on first_row update_rows sum_rows
  sum-write i [] key h = cc
  sum-write i (x ∷ xs) {w} key h = elim (Bool-cases (x.id == i)) [
    | inl hit ↦
        let e : x.id ≡ i = ground (arith, hit) in
        let absent : exists_row (λ r. x.id == r.id) xs ≡ false = ground arith in
        let rest =
          write-absent i xs (subst (λ k. exists_row (λ r. k == r.id) xs ≡ false) e absent) in
        let found : some x ≡ some w = ground arith in
        let same : x ≡ w = cc in rw (hit, rest, same) (omega int_laws)
    | inr miss ↦
        let rest = sum-write i xs {w = w} (ground arith) (ground arith) in
        rw miss (omega (int_laws, parts_of_eq rest))
  ]

  -- A write that keeps the summand of the written rows keeps the sum.
  sum-same :
      (p : WithdrawalRequest → Bool) (ws : List WithdrawalRequest)
      → ((x : WithdrawalRequest) → p x ≡ true → g (f x) ≡ g x)
      → sum_rows g (update_rows p f ws) ≡ sum_rows g ws
  unfolding update_rows sum_rows
  sum-same p [] same = refl
  sum-same p (x ∷ xs) same = elim (Bool-cases (p x)) [
    | inl hit ↦ rw (hit, same x hit, sum-same p xs same) refl
    | inr miss ↦ rw (miss, sum-same p xs same) refl
  ]

-- A step settles the books if its refund of a live row does, and its other writes do.
refund-IsSettled :
    (now : ℕ) (w : WithdrawalRequest) (reason : Reason) (msg : ErrorMsg) (gas : Option ℕ) (db : Db)
    → row_of w.id db ≡ some w
    → is_refunded w.status ≡ false
    → IsSettled db
    → IsSettled (refund now w reason msg gas db)
unfolding refund write_rows refund_failed_withdrawal sum_rows
refund-IsSettled now w reason msg gas db found live s = record {
  keyed =
      IsKey-update_rows (λ x. x.id) (λ x. x.id == w.id) (mark_refunded now msg gas) (λ x. refl) _
        s.keyed;
  balanced = λ user.
      let moved =
        sum-write (held user) (mark_refunded now msg gas) w.id db.withdrawal_requests {w = w}
          s.keyed found in
      let before = s.balanced user in
      elim (Bool-cases (w.user_id == user)) [
        | inl own ↦
            let gone : held user w ≡ w.amount_usd = ground (arith, own, live) in
            let none_left : held user (mark_refunded now msg gas w) ≡ pos 0 = ground arith in
            rw own (
              omega (
                int_laws,
                parts_of_eq moved,
                parts_of_eq before,
                parts_of_eq gone,
                parts_of_eq none_left,
              ))
        | inr other ↦
            let gone : held user w ≡ pos 0 = ground (arith, other) in
            let none_left : held user (mark_refunded now msg gas w) ≡ pos 0 = ground arith in
            rw other (
              omega (
                int_laws,
                parts_of_eq moved,
                parts_of_eq before,
                parts_of_eq gone,
                parts_of_eq none_left,
              ))
      ];
}

pub mark-IsSettled :
    (w : WithdrawalRequest) (f : WithdrawalRequest → WithdrawalRequest) (db : Db)
    → IsMark f
    → row_of w.id db ≡ some w
    → is_refunded w.status ≡ false
    → IsSettled db
    → IsSettled (write_row w.id f db)
unfolding write_rows
mark-IsSettled w f db mark found live s = record {
  keyed = IsKey-update_rows (λ x. x.id) (λ x. x.id == w.id) f mark.ids _ s.keyed;
  balanced = λ user.
      let moved = sum-write (held user) f w.id db.withdrawal_requests {w = w} s.keyed found in
      let before = s.balanced user in
      let same : held user (f w) ≡ held user w =
        ground (arith, mark.users w, mark.amounts w, mark.live w live, live) in
      omega (int_laws, parts_of_eq moved, parts_of_eq before, parts_of_eq same);
}

-- A loop over live rows keeps the books settled.
pub loop-IsSettled :
    (now : ℕ) (step : Step) (q : WithdrawalRequest → Bool) (is : List ℕ) (v : World)
    → IsWriting now step
    → ((w : WithdrawalRequest) → q w ≡ true → is_refunded w.status ≡ false)
    → IsOnce is
    → IsReady q is v.db
    → IsSettled v.db
    → IsSettled (world (each step is v)).db
loop-IsSettled now step q is v writes alive once ready s =
    each-keeps step (writing-IsLocal now step writes) IsSettled q
      (λ w u found pass t.
        writes w u IsSettled t
          (λ reason msg gas _. refund-IsSettled now w reason msg gas u.db found (alive w pass) t)
          (λ f mark. mark-IsSettled w f u.db mark found (alive w pass) t))
      is v once ready s

pub recover_stuck-IsSettled :
    (settings : PayoutSettings) (now : ℕ) (v : World)
    → IsSettled v.db
    → IsSettled (recover_stuck settings now v).db
unfolding recover_stuck write_rows
recover_stuck-IsSettled settings now v s = record {
  keyed = IsKey-update_rows (λ x. x.id) (is_stuck settings now) (recover now) (λ x. refl) _ s.keyed;
  balanced = λ user.
      rw
        (sum-same (held user) (recover now) (is_stuck settings now) v.db.withdrawal_requests
          (λ x stuck. ground arith))
        (s.balanced user);
}
