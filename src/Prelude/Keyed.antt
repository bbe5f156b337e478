-- ===== src/Prelude/Keyed.antt =====
-- The loops `for row in rows: if test(row): UPDATE … WHERE id = row.id`, and the one UPDATE that
-- such a loop comes to.
use mathlib.Core.List.{List, [], ◌∷◌, map}
use Prim.Native.Nat.{ℕ}
use mathlib.Core.Path.{◌≡◌, refl, sym, ap, fun_ext, ◌∙◌}
use mathlib.Core.Bool.{Bool, true, false, ◌||◌, ◌&&◌}
use mathlib.Core.Logic.{inl, inr}
use native.Mathlib.Omega.{arith}
use abr_out.Prelude.Tests.{◌==◌, if◌then◌else◌, Bool-cases}
use abr_out.Prelude.Lists.{All, All-map₂, All-mono}
use mathlib.Core.Option.{some}
use abr_out.Prelude.Rows.{select, first_row, update_rows, exists_row, unique_on}

module _ {ℓ} {A : Type ℓ} where
  pub update_rows-congr :
      (p q : A → Bool) (f : A → A) (xs : List A)
      → All (λ x. p x ≡ q x) xs
      → update_rows p f xs ≡ update_rows q f xs
  unfolding update_rows
  update_rows-congr p q f [] h = refl
  update_rows-congr p q f (x ∷ xs) h = rw (h.0, update_rows-congr p q f xs h.1)

  repeated :
      (f : A → A)
      → ((a : A) → f (f a) ≡ f a)
      → (b : Bool) (x : A) → (if b then f (f x) else f x) ≡ f x
  repeated f again true x = again x
  repeated f again false x = refl

  pub update_rows-none : (f : A → A) (xs : List A) → update_rows (λ x. false) f xs ≡ xs
  unfolding update_rows
  update_rows-none f [] = refl
  update_rows-none f (x ∷ xs) = rw (update_rows-none f xs)

  -- Two updates by the same assignment are one, where to repeat the assignment changes nothing.
  pub update_rows-update_rows :
      (f : A → A)
      → ((a : A) → f (f a) ≡ f a)
      → (p q : A → Bool) (xs : List A)
      → update_rows p f (update_rows q f xs) ≡ update_rows (λ x. q x || p x) f xs
  unfolding update_rows
  update_rows-update_rows f again p q [] = refl
  update_rows-update_rows f again p q (x ∷ xs) = elim (Bool-cases (q x)) [
    | inl hit ↦
        rw (hit, update_rows-update_rows f again p q xs)
          (ap (λ y. y ∷ update_rows (λ z. q z || p z) f xs) (repeated f again (p (f x)) x))
    | inr miss ↦ rw (miss, update_rows-update_rows f again p q xs)
  ]

  -- What no row passes does not hold of any of them.
  pub exists_row-false :
      (p : A → Bool) (xs : List A) → exists_row p xs ≡ false → All (λ x. p x ≡ false) xs
  unfolding exists_row
  exists_row-false p [] h = tt
  exists_row-false p (x ∷ xs) h = (ground arith, exists_row-false p xs (ground arith))

module _ {ℓ κ} {A : Type ℓ} {B : Type κ} (key : A → ℕ) (f : A → A) (id : B → ℕ) where
  unfoldable pub update_each : (B → Bool) → List B → List A → List A
  unfolding update_rows
  update_each test [] xs = xs
  update_each test (r ∷ rs) xs =
      update_each test rs (if test r then update_rows (λ x. key x == id r) f xs else xs)

  -- A row is updated if some row of the loop that passes the test has its key.
  abbrev pub picked : (B → Bool) → List B → A → Bool
  picked test rs x = exists_row (λ r. test r && key x == id r) rs

  pub update_each-eq :
      ((a : A) → f (f a) ≡ f a)
      → (test : B → Bool) (rs : List B) (xs : List A)
      → update_each test rs xs ≡ update_rows (picked test rs) f xs
  unfolding update_each exists_row
  update_each-eq again test [] xs = sym (update_rows-none f xs)
  update_each-eq again test (r ∷ rs) xs = elim (Bool-cases (test r)) [
    | inl hit ↦ rw hit (
        update_each-eq again test rs (update_rows (λ x. key x == id r) f xs)
        ∙ update_rows-update_rows f again (picked test rs) (λ x. key x == id r) xs
        ∙ ap (λ p. update_rows p f xs) (fun_ext λ x. ground arith))
    | inr miss ↦
        rw miss (
          update_each-eq again test rs xs
          ∙ ap (λ p. update_rows p f xs) (fun_ext λ x. ground arith))
  ]

-- The keys are the primary key of the table.
abbrev pub IsKey {ℓ} : {A : Type ℓ} → (A → ℕ) → List A → Type 0
IsKey key xs = unique_on (λ a b. key a == key b) xs ≡ true

module _ {ℓ} {A : Type ℓ} (key : A → ℕ) (test : A → Bool) where
  none_other :
      (a : A) (xs : List A)
      → exists_row (λ r. key a == key r) xs ≡ false
      → exists_row (λ r. test r && key a == key r) xs ≡ false
  unfolding exists_row
  none_other a [] h = refl
  none_other a (x ∷ xs) h = ground (arith, none_other a xs)

  -- Where no two rows share a key, a row is picked by its own test.
  pub picked_self :
      (xs : List A)
      → IsKey key xs
      → All (λ x. exists_row (λ r. test r && key x == key r) xs ≡ test x) xs
  unfolding exists_row unique_on
  picked_self [] h = tt
  picked_self (y ∷ ys) h = (
    ground (arith, none_other y ys),
    All-map₂ ys (λ x other same. ground arith)
        (exists_row-false (λ r. key y == key r) ys (ground arith)) (picked_self ys (ground arith)),
  )

module _ {ℓ} {A : Type ℓ} (key : A → ℕ) (p : A → Bool) (f : A → A) where
  exists_row-update_rows :
      ((a : A) → key (f a) ≡ key a)
      → (test : ℕ → Bool) (xs : List A)
      → exists_row (λ r. test (key r)) (update_rows p f xs) ≡ exists_row (λ r. test (key r)) xs
  unfolding exists_row update_rows
  exists_row-update_rows keep test [] = refl
  exists_row-update_rows keep test (x ∷ xs) =
      ground (arith, keep x, exists_row-update_rows keep test xs)

  -- An update that keeps the keys keeps them distinct.
  pub IsKey-update_rows :
      ((a : A) → key (f a) ≡ key a) → (xs : List A) → IsKey key xs → IsKey key (update_rows p f xs)
  unfolding update_rows unique_on
  IsKey-update_rows keep [] h = refl
  IsKey-update_rows keep (x ∷ xs) h =
      ground
        (arith, keep x, exists_row-update_rows keep (λ k. key x == k) xs, IsKey-update_rows keep xs)

-- A predicate over the rows after an update, from one over the rows before it.
pub All-update_rows {ℓ κ μ} :
    {A : Type ℓ} {P : A → Type κ} (Q : A → Type μ) (p : A → Bool) (f : A → A) (xs : List A)
    → ((x : A) → P x → Q (if p x then f x else x))
    → All P xs
    → All Q (update_rows p f xs)
unfolding update_rows
All-update_rows Q p f [] step h = tt
All-update_rows Q p f (x ∷ xs) step h = (step x h.0, All-update_rows Q p f xs step h.1)

pub All-always {ℓ κ} : {A : Type ℓ} {P : A → Type κ} (xs : List A) → ((x : A) → P x) → All P xs
All-always [] h = tt
All-always (x ∷ xs) h = (h x, All-always xs h)

-- The row that a query finds, after an update of the rows with its key that the query does not see.
pub first_row-update {ℓ} :
    {A : Type ℓ} (key : A → ℕ) (p : A → Bool) (f : A → A) (a : A) (xs : List A)
    → ((x : A) → p (f x) ≡ p x)
    → first_row p xs ≡ some a
    → first_row p (update_rows (λ x. key x == key a) f xs) ≡ some (f a)
unfolding first_row update_rows
first_row-update key p f a [] keep h = cc
first_row-update key p f a (x ∷ xs) keep h =
    ground (arith, keep x, first_row-update key p f a xs keep)

pub All-select {ℓ κ} :
    {A : Type ℓ} (P : A → Type κ) (p : A → Bool) (xs : List A) → All P xs → All P (select p xs)
unfolding select
All-select P p [] h = tt
All-select P p (x ∷ xs) h = elim (Bool-cases (p x)) [
  | inl hit ↦ rw hit (h.0, All-select P p xs h.1)
  | inr miss ↦ rw miss (All-select P p xs h.1)
]

pub select-select {ℓ} :
    {A : Type ℓ} (q p : A → Bool) (xs : List A)
    → select q (select p xs) ≡ select (λ x. p x && q x) xs
unfolding select
select-select q p [] = refl
select-select q p (x ∷ xs) = elim (Bool-cases (p x)) [
  | inl hit ↦ rw (hit, select-select q p xs)
  | inr miss ↦ rw (miss, select-select q p xs)
]

pub update_rows-same {ℓ} :
    {A : Type ℓ} (p : A → Bool) (xs : List A) → update_rows p (λ x. x) xs ≡ xs
unfolding update_rows
update_rows-same p [] = refl
update_rows-same p (x ∷ xs) = ground (arith, update_rows-same p xs)

module _ {ℓ} {A : Type ℓ} (key : A → ℕ) (f : A → A) where
  -- The row with a key after a pass over the table that keeps the keys.
  pub first_row-map :
      (k : ℕ) (x : A) (xs : List A)
      → ((a : A) → key (f a) ≡ key a)
      → first_row (λ a. key a == k) xs ≡ some x
      → (first_row (λ a. key a == k) (map f xs) ≡ some (f x)) × (key x ≡ k)
  unfolding first_row
  first_row-map k x [] keep h = cc
  first_row-map k x (l ∷ ls) keep h = ground (arith, keep l, first_row-map k x ls keep)

  -- A pass over the table that keeps the keys keeps which keys are there.
  pub exists_row-map :
      (k : ℕ) (xs : List A)
      → ((a : A) → key (f a) ≡ key a)
      → exists_row (λ a. key a == k) (map f xs) ≡ exists_row (λ a. key a == k) xs
  unfolding exists_row
  exists_row-map k [] keep = refl
  exists_row-map k (x ∷ xs) keep = ground (arith, keep x, exists_row-map k xs keep)

-- The key of every row of a table is there.
pub All-exists_row {ℓ} :
    {A : Type ℓ} (key : A → ℕ) (xs : List A)
    → All (λ x. exists_row (λ a. key a == key x) xs ≡ true) xs
unfolding exists_row
All-exists_row key [] = tt
All-exists_row key (x ∷ xs) =
    (ground arith, All-mono xs (λ a h. ground arith) (All-exists_row key xs))

-- The selected rows pass the test.
pub All-selected {ℓ} :
    {A : Type ℓ} (p : A → Bool) (xs : List A) → All (λ x. p x ≡ true) (select p xs)
unfolding select
All-selected p [] = tt
All-selected p (x ∷ xs) = elim (Bool-cases (p x)) [
  | inl hit ↦ rw hit (hit, All-selected p xs)
  | inr miss ↦ rw miss (All-selected p xs)
]

-- The row that a query finds passes its test.
pub first_row-passes {ℓ} :
    {A : Type ℓ} (p : A → Bool) (a : A) (xs : List A) → first_row p xs ≡ some a → p a ≡ true
unfolding first_row
first_row-passes p a [] h = cc
first_row-passes p a (x ∷ xs) h = ground (arith, first_row-passes p a xs)

-- Where the keys are distinct, the row that was found by its key is the only one with it.
pub first_row-only {ℓ} :
    {A : Type ℓ} (key : A → ℕ) (k : ℕ) (a : A) (xs : List A)
    → IsKey key xs
    → first_row (λ x. key x == k) xs ≡ some a
    → All (λ x. (key x == key a) ≡ true → x ≡ a) xs
unfolding first_row unique_on
first_row-only key k a [] unique h = tt
first_row-only key k a (x ∷ xs) unique h = elim (Bool-cases (key x == k)) [
  | inl hit ↦ (
    λ e. ground (arith, hit),
    All-mono xs (λ y other e. ground (arith, hit, e))
        (exists_row-false (λ r. key x == key r) xs (ground arith)),
  )
  | inr miss ↦ (
    λ e. ground (arith, miss, first_row-passes (λ y. key y == k) a xs (ground (arith, miss))),
    first_row-only key k a xs (ground arith) (ground (arith, miss)),
  )
]

-- Where the keys are distinct, a row is the one that its key finds.
pub first_row_self {ℓ} :
    {A : Type ℓ} (key : A → ℕ) (xs : List A)
    → IsKey key xs
    → All (λ x. first_row (λ a. key a == key x) xs ≡ some x) xs
unfolding first_row unique_on exists_row
first_row_self key [] h = tt
first_row_self key (y ∷ ys) h = (
  ground arith,
  All-map₂ ys (λ x fresh found. ground (arith, fresh, found))
      (exists_row-false (λ r. key y == key r) ys (ground arith))
      (first_row_self key ys (ground arith)),
)
