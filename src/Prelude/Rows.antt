-- ===== src/Prelude/Rows.antt =====
-- A table is the list of its rows. The queries are the SQL statements that the program issues:
-- `select` is `SELECT … WHERE`, `update_rows` is `UPDATE … SET … WHERE`, `sum_rows` is
-- `coalesce(sum(…), 0)`, `first_row` is `scalar_one_or_none()` and `distinct` is `DISTINCT`.
use Prim.Native.Nat.{ℕ, ◌+◌}
use mathlib.Core.Bool.{Bool, true, false, ◌||◌, ◌&&◌, not}
use mathlib.Core.Option.{Option, none, some}
use mathlib.Core.List.{List, [], ◌∷◌}
use abr_out.Prelude.Tests.{◌==◌, leb, if◌then◌else◌}
use abr_out.Prelude.Int.{ℤ, pos, ◌+ℤ◌}

module _ {ℓ} {A : Type ℓ} where
  unfoldable pub select : (A → Bool) → List A → List A
  select p [] = []
  select p (x ∷ xs) = if p x then x ∷ select p xs else select p xs

  unfoldable pub update_rows : (A → Bool) → (A → A) → List A → List A
  update_rows p f [] = []
  update_rows p f (x ∷ xs) = (if p x then f x else x) ∷ update_rows p f xs

  unfoldable pub first_row : (A → Bool) → List A → Option A
  first_row p [] = none
  first_row p (x ∷ xs) = if p x then some x else first_row p xs

  unfoldable pub exists_row : (A → Bool) → List A → Bool
  exists_row p [] = false
  exists_row p (x ∷ xs) = p x || exists_row p xs

  unfoldable pub sum_rows : (A → ℤ) → List A → ℤ
  sum_rows f [] = pos 0
  sum_rows f (x ∷ xs) = f x +ℤ sum_rows f xs

  unfoldable pub total_rows : (A → ℕ) → List A → ℕ
  total_rows f [] = 0
  total_rows f (x ∷ xs) = f x + total_rows f xs

-- No two rows clash: a UNIQUE constraint.
module _ {ℓ} {A : Type ℓ} where
  unfoldable pub unique_on : (A → A → Bool) → List A → Bool
  unfolding exists_row
  unique_on clash [] = true
  unique_on clash (x ∷ xs) = not (exists_row (clash x) xs) && unique_on clash xs

-- Membership of a set of identifiers, such as `x in known_ids`.
unfoldable pub contains : ℕ → List ℕ → Bool
contains a [] = false
contains a (x ∷ xs) = a == x || contains a xs

unfoldable pub distinct : List ℕ → List ℕ
unfolding contains
distinct [] = []
distinct (x ∷ xs) = let rest = distinct xs in if contains x rest then rest else x ∷ rest

-- `order_by(id.asc())`
unfoldable pub insert_id : ℕ → List ℕ → List ℕ
insert_id i [] = i ∷ []
insert_id i (j ∷ js) = if leb i j then i ∷ j ∷ js else j ∷ insert_id i js

unfoldable pub sort_ids : List ℕ → List ℕ
unfolding insert_id
sort_ids [] = []
sort_ids (i ∷ is) = insert_id i (sort_ids is)
