-- ===== src/Payout/Process/Loop.antt =====
-- The loops of the job: a step writes no row but its own, so what a step keeps the loop keeps.
use abr_out.Prelude.{
  ℕ, List, [], ◌∷◌, some, Bool, true, false, ◌≡◌, ◌≢◌, refl, sym, ◌∙◌, inl, inr, arith,
  Option-cases,
}
use mathlib.Core.Path.{subst}
use abr_out.Prelude.{All}
use abr_out.Prelude.Rows.{contains}
use abr_out.Models.{Db, WithdrawalRequest}
use abr_out.Outside.{World}
use abr_out.Payout.Process.{world, row_of, on_row, each}
use abr_out.Payout.Process.Rows.{row_of-id, IsOnce}
use abr_out.Payout.Process.Writes.{Step, IsLocal, Outcome-cases}

-- The rows of these ids, where they exist, pass the test.
abbrev pub IsReady : (WithdrawalRequest → Bool) → List ℕ → Db → Type 0
IsReady q is db = All (λ i. (w : WithdrawalRequest) → row_of i db ≡ some w → q w ≡ true) is

pub IsReady-same :
    (q : WithdrawalRequest → Bool) (i : ℕ) (is : List ℕ) (db db' : Db)
    → contains i is ≡ false
    → ((j : ℕ) → j ≢ i → row_of j db' ≡ row_of j db)
    → IsReady q is db
    → IsReady q is db'
unfolding contains
IsReady-same q i [] db db' out same ready = tt
IsReady-same q i (j ∷ js) db db' out same ready = (
  λ w found. ready.0 w (sym (same j (ground arith)) ∙ found),
  IsReady-same q i js db db' (ground arith) same ready.1,
)

module _ (step : Step) (local : IsLocal step) (P : Db → Type 0) (q : WithdrawalRequest → Bool)
    (keeps : (w : WithdrawalRequest) (v : World)
      → row_of w.id v.db ≡ some w
      → q w ≡ true
      → P v.db
      → P (world (step w v)).db) where
  -- One turn of the loop keeps P and leaves the other rows.
  on_row-keeps :
      (i : ℕ) (v : World)
      → ((w : WithdrawalRequest) → row_of i v.db ≡ some w → q w ≡ true)
      → P v.db
      → P (world (on_row step i v)).db
        × ((j : ℕ) → j ≢ i → row_of j (world (on_row step i v)).db ≡ row_of j v.db)
  unfolding on_row
  on_row-keeps i v ready p = elim (Option-cases (row_of i v.db)) [
    | inl gone ↦ rw (gone, world) (p, λ j ne. refl)
    | inr (w, found) ↦
        let same = row_of-id i v.db.withdrawal_requests found in
        rw (found, world)
          (
            keeps w v (subst (λ k. row_of k v.db ≡ some w) (sym same) found) (ready w found) p,
            λ j ne. local w v j (rw same ne),
          )
  ]

  -- The loop keeps P, however it ends.
  pub each-keeps :
      (is : List ℕ) (v : World)
      → IsOnce is
      → IsReady q is v.db
      → P v.db
      → P (world (each step is v)).db
  unfolding each
  each-keeps [] v once ready p = p
  each-keeps (i ∷ is) v once ready p =
      let turn = on_row-keeps i v ready.0 p in
      elim (Outcome-cases (on_row step i v)) [
        | inl (v', e) ↦
            let kept = subst (λ o. P (world o).db) e turn.0 in
            let same =
              subst (λ o. (j : ℕ) → j ≢ i → row_of j (world o).db ≡ row_of j v.db) e turn.1 in
            rw (e, world)
              (each-keeps is v' once.1 (IsReady-same q i is v.db v'.db once.0 same ready.1) kept)
        | inr (v', e) ↦ rw (e, world) (subst (λ o. P (world o).db) e turn.0)
      ]
