-- ===== src/Prelude/Pages.antt =====
-- `ORDER BY …`, and `LIMIT size OFFSET (page - 1) * size`. Rows that the order does not tell apart
-- stand as in the table.
use Prim.Native.Nat.{ℕ, zero, suc, ◌+◌, ◌-◌, ◌*◌, ◌≤◌}
use mathlib.Core.Path.{◌≡◌, refl, ap, sym, ◌∙◌}
use mathlib.Core.Logic.{inl, inr}
use mathlib.Core.Bool.{Bool}
use mathlib.Core.List.{List, [], ◌∷◌, ◌++◌, Perm}
use mathlib.Core.List.Perm
use native.Mathlib.Omega.{arith}
use abr_out.Prelude.Tests.{if◌then◌else◌, Bool-cases}
use abr_out.Prelude.Lists.{All, length, take, drop}

module _ {ℓ} {A : Type ℓ} where
  unfoldable pub insert_row : (A → A → Bool) → A → List A → List A
  insert_row before x [] = x ∷ []
  insert_row before x (y ∷ ys) =
      let rest = insert_row before x ys in if before y x then y ∷ rest else x ∷ y ∷ ys

  unfoldable pub order_by : (A → A → Bool) → List A → List A
  unfolding insert_row
  order_by before [] = []
  order_by before (x ∷ xs) = insert_row before x (order_by before xs)

  unfoldable pub page_of : ℕ → ℕ → List A → List A
  unfolding take drop
  page_of page size rows = take size (drop ((page - 1) * size) rows)

  -- The first `n` pages one after the other.
  unfoldable pub first_pages : (ℕ → List A) → ℕ → List A
  first_pages page zero = []
  first_pages page (suc n) = first_pages page n ++ page (suc n)

  take-append : (m n : ℕ) (xs : List A) → take m xs ++ take n (drop m xs) ≡ take (m + n) xs
  unfolding take drop
  take-append m n [] = refl
  take-append zero n (x ∷ xs) = ap (λ k. take k (x ∷ xs)) (omega arith)
  take-append (suc m) n (x ∷ xs) =
      let shift : suc m + n ≡ suc (m + n) = omega arith in rw (shift, take-append m n xs) refl

  take_none : (xs : List A) → take 0 xs ≡ []
  unfolding take
  take_none [] = refl
  take_none (x ∷ xs) = refl

  pub take_all : (n : ℕ) (xs : List A) → length xs ≤ n → take n xs ≡ xs
  unfolding take
  take_all n [] h = refl
  take_all zero (x ∷ xs) h = absurd (omega arith)
  take_all (suc n) (x ∷ xs) h = ap (λ ys. x ∷ ys) (take_all n xs (omega arith))

  -- Pages that follow one another give the rows from the first on.
  pub first_pages-take :
      (n size : ℕ) (rows : List A)
      → first_pages (λ page. page_of page size rows) n ≡ take (n * size) rows
  unfolding first_pages page_of
  first_pages-take zero size rows =
      let nothing : 0 * size ≡ 0 = omega arith in rw nothing (sym (take_none rows))
  first_pages-take (suc n) size rows =
      let behind : suc n - 1 ≡ n = omega arith in
      let whole : suc n * size ≡ n * size + size = grind arith in
      rw (first_pages-take n size rows, behind, whole) (take-append (n * size) size rows)

  insert_row-perm :
      (before : A → A → Bool) (x : A) (ys : List A) → Perm (insert_row before x ys) (x ∷ ys)
  unfolding insert_row
  insert_row-perm before x [] = Perm.rfl
  insert_row-perm before x (y ∷ ys) = elim (Bool-cases (before y x)) [
    | inl later ↦
        rw later (Perm.trans (Perm.cons y (insert_row-perm before x ys)) (Perm.swap x y ys))
    | inr now ↦ rw now Perm.rfl
  ]

  pub order_by-perm : (before : A → A → Bool) (xs : List A) → Perm (order_by before xs) xs
  unfolding order_by
  order_by-perm before [] = Perm.rfl
  order_by-perm before (x ∷ xs) =
      Perm.trans (insert_row-perm before x (order_by before xs))
        (Perm.cons x (order_by-perm before xs))

  insert_row-length :
      (before : A → A → Bool) (x : A) (ys : List A)
      → length (insert_row before x ys) ≡ suc (length ys)
  unfolding insert_row
  insert_row-length before x [] = refl
  insert_row-length before x (y ∷ ys) = ground (arith, insert_row-length before x ys)

  pub order_by-length :
      (before : A → A → Bool) (xs : List A) → length (order_by before xs) ≡ length xs
  unfolding order_by
  order_by-length before [] = refl
  order_by-length before (x ∷ xs) =
      insert_row-length before x (order_by before xs) ∙ ap suc (order_by-length before xs)

module _ {ℓ κ} {A : Type ℓ} (P : A → Type κ) where
  All-take : (n : ℕ) (xs : List A) → All P xs → All P (take n xs)
  unfolding take
  All-take n [] h = tt
  All-take zero (x ∷ xs) h = tt
  All-take (suc n) (x ∷ xs) h = (h.0, All-take n xs h.1)

  All-drop : (n : ℕ) (xs : List A) → All P xs → All P (drop n xs)
  unfolding drop
  All-drop n [] h = tt
  All-drop zero (x ∷ xs) h = h
  All-drop (suc n) (x ∷ xs) h = All-drop n xs h.1

  pub All-page_of : (page size : ℕ) (rows : List A) → All P rows → All P (page_of page size rows)
  unfolding page_of
  All-page_of page size rows h = All-take size _ (All-drop ((page - 1) * size) rows h)

  All-insert_row :
      (before : A → A → Bool) (x : A) (ys : List A)
      → P x
      → All P ys
      → All P (insert_row before x ys)
  unfolding insert_row
  All-insert_row before x [] p h = (p, tt)
  All-insert_row before x (y ∷ ys) p h = elim (Bool-cases (before y x)) [
    | inl later ↦ rw later (h.0, All-insert_row before x ys p h.1)
    | inr now ↦ rw now (p, h)
  ]

  pub All-order_by : (before : A → A → Bool) (xs : List A) → All P xs → All P (order_by before xs)
  unfolding order_by
  All-order_by before [] h = tt
  All-order_by before (x ∷ xs) h =
      All-insert_row before x (order_by before xs) h.0 (All-order_by before xs h.1)
