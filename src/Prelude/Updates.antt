-- ===== src/Prelude/Updates.antt =====
-- What an update of rows leaves for a later update, and for a query by the same test.
use mathlib.Core.List.{List, [], ◌∷◌}
use mathlib.Core.Path.{◌≡◌, refl}
use mathlib.Core.Bool.{Bool, true}
use mathlib.Core.Option.{some}
use native.Mathlib.Omega.{arith}
use abr_out.Prelude.Rows.{first_row, update_rows, exists_row}

-- An update that a later one of the same rows overwrites is not seen.
pub update_rows-absorb {ℓ} :
    {A : Type ℓ} (p : A → Bool) (f g : A → A) (xs : List A)
    → ((x : A) → p (f x) ≡ p x)
    → ((x : A) → g (f x) ≡ g x)
    → update_rows p g (update_rows p f xs) ≡ update_rows p g xs
unfolding update_rows
update_rows-absorb p f g [] keep over = refl
update_rows-absorb p f g (x ∷ xs) keep over =
    ground (arith, keep x, over x, update_rows-absorb p f g xs keep over)

-- The row that a query finds, after an update of the rows that it finds.
pub first_row-updated {ℓ} :
    {A : Type ℓ} (p : A → Bool) (f : A → A) (a : A) (xs : List A)
    → ((x : A) → p (f x) ≡ p x)
    → first_row p xs ≡ some a
    → first_row p (update_rows p f xs) ≡ some (f a)
unfolding first_row update_rows
first_row-updated p f a [] keep h = cc
first_row-updated p f a (x ∷ xs) keep h = ground (arith, h, keep x, first_row-updated p f a xs keep)

pub exists_row-found {ℓ} :
    {A : Type ℓ} (p : A → Bool) (a : A) (xs : List A)
    → first_row p xs ≡ some a
    → exists_row p xs ≡ true
unfolding first_row exists_row
exists_row-found p a [] h = cc
exists_row-found p a (x ∷ xs) h = ground (arith, h, exists_row-found p a xs)
