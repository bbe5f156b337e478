-- ===== src/Payout/Process/Rows.antt =====
-- How the writes of the job move single rows, and the ids that its loops run over.
use abr_out.Prelude.{
  ℕ, zero, suc, List, [], ◌∷◌, some, Bool, true, false, ◌||◌, ◌==◌, ◌≡◌, ◌≢◌, refl, ◌∙◌, inl, inr,
  arith, leb, Bool-cases, if◌then◌else◌,
}
use abr_out.Prelude.Rows.{
  insert_id, sort_ids, select, first_row, update_rows, exists_row, unique_on, contains,
}
use abr_out.Prelude.Keyed.{IsKey}
use abr_out.Models.{Db, WithdrawalRequest}
use abr_out.Payout.Process.{row_of, write_rows, write_row, limit, oldest}
use mathlib.Core.List.{map}

abbrev Writer : Type 0
Writer = WithdrawalRequest → WithdrawalRequest

pub row_of-id :
    (i : ℕ) (ws : List WithdrawalRequest) {w : WithdrawalRequest}
    → first_row (λ x. x.id == i) ws ≡ some w
    → w.id ≡ i
unfolding first_row
row_of-id i [] h = cc
row_of-id i (x ∷ xs) {w} h = ground (arith, row_of-id i xs {w = w})

-- A write that keeps the ids turns the row that an id finds into the written one.
first_row-write :
    (p : WithdrawalRequest → Bool) (f : Writer) (i : ℕ) (ws : List WithdrawalRequest)
    {w : WithdrawalRequest}
    → ((x : WithdrawalRequest) → (f x).id ≡ x.id)
    → first_row (λ x. x.id == i) ws ≡ some w
    → first_row (λ x. x.id == i) (update_rows p f ws) ≡ some (if p w then f w else w)
unfolding first_row update_rows
first_row-write p f i [] keep h = cc
first_row-write p f i (x ∷ xs) {w} keep h = elim (Bool-cases (p x)) [
  | inl hit ↦ rw hit (ground (arith, keep x, first_row-write p f i xs {w = w} keep))
  | inr miss ↦ rw miss (ground (arith, first_row-write p f i xs {w = w} keep))
]

pub row_of-write_rows :
    (p : WithdrawalRequest → Bool) (f : Writer) (i : ℕ) (db : Db) {w : WithdrawalRequest}
    → ((x : WithdrawalRequest) → (f x).id ≡ x.id)
    → row_of i db ≡ some w
    → row_of i (write_rows p f db) ≡ some (if p w then f w else w)
unfolding write_rows
row_of-write_rows p f i db keep h = first_row-write p f i db.withdrawal_requests keep h

-- The row with the written id.
pub row_of-write_row :
    (f : Writer) (i : ℕ) (db : Db) {w : WithdrawalRequest}
    → ((x : WithdrawalRequest) → (f x).id ≡ x.id)
    → row_of i db ≡ some w
    → row_of i (write_row i f db) ≡ some (f w)
row_of-write_row f i db {w} keep h =
    let same = row_of-id i db.withdrawal_requests h in
    let found = row_of-write_rows (λ x. x.id == i) f i db keep h in ground (arith, same, found)

first_row-other :
    (f : Writer) (i j : ℕ) (ws : List WithdrawalRequest)
    → ((x : WithdrawalRequest) → (f x).id ≡ x.id)
    → j ≢ i
    → first_row (λ x. x.id == j) (update_rows (λ x. x.id == i) f ws) ≡ first_row (λ x. x.id == j) ws
unfolding first_row update_rows
first_row-other f i j [] keep ne = refl
first_row-other f i j (x ∷ xs) keep ne = elim (Bool-cases (x.id == i)) [
  | inl hit ↦ rw hit (ground (arith, keep x, first_row-other f i j xs keep ne))
  | inr miss ↦ rw miss (ground (arith, first_row-other f i j xs keep ne))
]

-- Any other row.
pub row_of-write_other :
    (f : Writer) (i j : ℕ) (db : Db)
    → ((x : WithdrawalRequest) → (f x).id ≡ x.id)
    → j ≢ i
    → row_of j (write_row i f db) ≡ row_of j db
unfolding write_rows
row_of-write_other f i j db keep ne = first_row-other f i j db.withdrawal_requests keep ne

-- The ids of a loop are the ids of rows that passed its test, each once.
contains-insert_id :
    (a i : ℕ) (is : List ℕ) → contains a (insert_id i is) ≡ (a == i || contains a is)
unfolding contains insert_id
contains-insert_id a i [] = refl
contains-insert_id a i (j ∷ js) = ground (arith, contains-insert_id a i js)

contains-sort_ids : (a : ℕ) (is : List ℕ) → contains a (sort_ids is) ≡ contains a is
unfolding contains sort_ids
contains-sort_ids a [] = refl
contains-sort_ids a (i ∷ is) =
    ground (arith, contains-insert_id a i (sort_ids is), contains-sort_ids a is)

contains-limit : (n a : ℕ) (is : List ℕ) → contains a is ≡ false → contains a (limit n is) ≡ false
unfolding contains limit
contains-limit zero a is h = refl
contains-limit (suc n) a [] h = refl
contains-limit (suc n) a (i ∷ is) h = ground (arith, contains-limit n a is)

-- Each id stands once.
abbrev pub IsOnce : List ℕ → Type 0
IsOnce [] = Unit {0}
IsOnce (i ∷ is) = (contains i is ≡ false) × IsOnce is

insert_id-IsOnce :
    (i : ℕ) (is : List ℕ) → contains i is ≡ false → IsOnce is → IsOnce (insert_id i is)
unfolding contains insert_id
insert_id-IsOnce i [] h o = (refl, tt)
insert_id-IsOnce i (j ∷ js) h o = elim (Bool-cases (leb i j)) [
  | inl before ↦ rw before (h, o)
  | inr after ↦
      rw after (ground (arith, contains-insert_id j i js), insert_id-IsOnce i js (ground arith) o.1)
]

sort_ids-IsOnce : (is : List ℕ) → IsOnce is → IsOnce (sort_ids is)
unfolding sort_ids
sort_ids-IsOnce [] o = tt
sort_ids-IsOnce (i ∷ is) o =
    insert_id-IsOnce i (sort_ids is) (contains-sort_ids i is ∙ o.0) (sort_ids-IsOnce is o.1)

limit-IsOnce : (n : ℕ) (is : List ℕ) → IsOnce is → IsOnce (limit n is)
unfolding limit
limit-IsOnce zero is o = tt
limit-IsOnce (suc n) [] o = tt
limit-IsOnce (suc n) (i ∷ is) o = (contains-limit n i is o.0, limit-IsOnce n is o.1)

module _ (p : WithdrawalRequest → Bool) where
  not_selected :
      (i : ℕ) (ws : List WithdrawalRequest)
      → exists_row (λ x. i == x.id) ws ≡ false
      → contains i (map (λ w. w.id) (select p ws)) ≡ false
  unfolding exists_row contains select
  not_selected i [] h = refl
  not_selected i (w ∷ ws) h = ground (arith, not_selected i ws)

  select-IsOnce :
      (ws : List WithdrawalRequest) → IsKey (λ w. w.id) ws → IsOnce (map (λ w. w.id) (select p ws))
  unfolding unique_on select
  select-IsOnce [] key = tt
  select-IsOnce (w ∷ ws) key = elim (Bool-cases (p w)) [
    | inl hit ↦ rw hit (not_selected w.id ws (ground arith), select-IsOnce ws (ground arith))
    | inr miss ↦ rw miss (select-IsOnce ws (ground arith))
  ]

  -- A row that fails the test is not among the ids.
  failing_id :
      (i : ℕ) (ws : List WithdrawalRequest) {w : WithdrawalRequest}
      → IsKey (λ x. x.id) ws
      → first_row (λ x. x.id == i) ws ≡ some w
      → p w ≡ false
      → contains i (map (λ x. x.id) (select p ws)) ≡ false
  unfolding unique_on first_row select contains
  failing_id i [] key h fails = refl
  failing_id i (x ∷ xs) {w} key h fails =
      ground (arith, failing_id i xs {w = w}, not_selected x.id xs)

  pub oldest-IsOnce :
      (n : ℕ) (db : Db) → IsKey (λ w. w.id) db.withdrawal_requests → IsOnce (oldest n p db)
  unfolding oldest
  oldest-IsOnce n db key =
      limit-IsOnce n _ (sort_ids-IsOnce _ (select-IsOnce db.withdrawal_requests key))

  -- The row that an id of the loop finds passed the loop's test.
  pub oldest-passes :
      (n i : ℕ) (db : Db) {w : WithdrawalRequest}
      → IsKey (λ x. x.id) db.withdrawal_requests
      → contains i (oldest n p db) ≡ true
      → row_of i db ≡ some w
      → p w ≡ true
  unfolding oldest
  oldest-passes n i db {w} key inside h = elim (Bool-cases (p w)) [
    | inl passes ↦ passes
    | inr fails ↦
        let out = contains-limit n i _ (
          contains-sort_ids i (map (λ x. x.id) (select p db.withdrawal_requests))
          ∙ failing_id i db.withdrawal_requests key h fails) in
        cc
  ]
