-- ===== src/Prelude/Loops.antt =====
-- The loops `for row in SELECT … WHERE: UPDATE … WHERE id = row.id` whose assignments depend on the
-- row, and the one pass over the table that such a loop comes to.
use mathlib.Core.List.{List, [], ◌∷◌, map}
use Prim.Native.Nat.{ℕ}
use mathlib.Core.Path.{◌≡◌, refl, sym, ap, subst, ◌∙◌}
use mathlib.Core.Bool.{Bool, false}
use mathlib.Core.Logic.{inl, inr}
use native.Mathlib.Omega.{arith}
use abr_out.Prelude.Tests.{◌==◌, if◌then◌else◌, Bool-cases}
use abr_out.Prelude.Lists.{All}
use abr_out.Prelude.Rows.{select, update_rows, unique_on}
use abr_out.Prelude.Keyed.{IsKey, exists_row-false, All-select}

module _ {ℓ} {A : Type ℓ} (key : A → ℕ) (change : A → A → A) where
  -- Each row of the loop changes the rows with its key.
  unfoldable pub change_each : List A → List A → List A
  unfolding update_rows
  change_each [] xs = xs
  change_each (r ∷ rs) xs = change_each rs (update_rows (λ x. key x == key r) (change r) xs)

module _ {ℓ} {A : Type ℓ} (key : A → ℕ) (change : A → A → A)
    (keep : (r x : A) → key (change r x) ≡ key x) where
  -- A row that no row of the loop shares its key with stays.
  change_each-head :
      (rs : List A) (y : A) (ys : List A)
      → All (λ r. (key y == key r) ≡ false) rs
      → change_each key change rs (y ∷ ys) ≡ y ∷ change_each key change rs ys
  unfolding change_each update_rows
  change_each-head [] y ys h = refl
  change_each-head (r ∷ rs) y ys h =
      rw h.0 (change_each-head rs y (update_rows (λ x. key x == key r) (change r) ys) h.1)

  update_rows-others :
      (k : ℕ) (f : A → A) (xs : List A)
      → All (λ x. (k == key x) ≡ false) xs
      → update_rows (λ x. key x == k) f xs ≡ xs
  unfolding update_rows
  update_rows-others k f [] h = refl
  update_rows-others k f (x ∷ xs) h = ground (arith, h.0, update_rows-others k f xs h.1)

  update_rows-own :
      (r y : A) (ys : List A)
      → key y ≡ key r
      → All (λ x. (key r == key x) ≡ false) ys
      → update_rows (λ x. key x == key r) (change r) (y ∷ ys) ≡ change r y ∷ ys
  unfolding update_rows
  update_rows-own r y ys same h = ground (arith, same, update_rows-others (key r) (change r) ys h)

  module _ (p : A → Bool) (read now : A → A) (read-key : (x : A) → key (read x) ≡ key x)
      (now-key : (x : A) → key (now x) ≡ key x) where
    others-mapped :
        (k : ℕ) (f : A → A) (xs : List A)
        → ((x : A) → key (f x) ≡ key x)
        → All (λ x. (k == key x) ≡ false) xs
        → All (λ x. (k == key x) ≡ false) (map f xs)
    others-mapped k f [] same h = tt
    others-mapped k f (x ∷ xs) same h =
        (ap (λ j. k == j) (same x) ∙ h.0, others-mapped k f xs same h.1)

    -- Over a table whose keys are distinct, a loop over the rows that it read and that pass the
    -- test changes each of these rows by its own assignment, and no other.
    pub change_each-own :
        (xs : List A)
        → IsKey key xs
        → change_each key change (select p (map read xs)) (map now xs)
          ≡ map (λ x. if p (read x) then change (read x) (now x) else now x) xs
    unfolding change_each select unique_on
    change_each-own [] h = refl
    change_each-own (x ∷ xs) h =
        let other = exists_row-false (λ r. key x == key r) xs (ground arith) in
        let ih = change_each-own xs (ground arith) in
        let rs = select p (map read xs) in
        let apart : (k : ℕ) → k ≡ key x → All (λ y. (k == key y) ≡ false) xs =
          λ k same. subst (λ j. All (λ y. (j == key y) ≡ false) xs) (sym same) other in
        let unread : (k : ℕ) → k ≡ key x → All (λ r. (k == key r) ≡ false) rs = λ k same.
          All-select _ p (map read xs) (others-mapped k read xs read-key (apart k same)) in
        elim (Bool-cases (p (read x))) [
          | inl hit ↦ rw hit (
              ap (change_each key change rs) (
                update_rows-own (read x) (now x) (map now xs) (now-key x ∙ sym (read-key x))
                  (others-mapped _ now xs now-key (apart _ (read-key x))))
              ∙ change_each-head rs (change (read x) (now x)) (map now xs)
                  (unread _ (keep (read x) (now x) ∙ now-key x))
              ∙ ap (λ ys. change (read x) (now x) ∷ ys) ih)
          | inr miss ↦ rw miss (
              change_each-head rs (now x) (map now xs) (unread _ (now-key x))
              ∙ ap (λ ys. now x ∷ ys) ih)
        ]

-- An update of the rows with a key is a pass over all rows.
pub update_rows-map {ℓ} :
    {A : Type ℓ} (key : A → ℕ) (k : ℕ) (f : A → A) (xs : List A)
    → update_rows (λ x. key x == k) f xs ≡ map (λ x. if key x == k then f x else x) xs
unfolding update_rows
update_rows-map key k f [] = refl
update_rows-map key k f (x ∷ xs) =
    ap (λ ys. (if key x == k then f x else x) ∷ ys) (update_rows-map key k f xs)
