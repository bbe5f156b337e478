-- ===== src/Prelude/Lists.antt =====
-- Lists measured by native numbers, and predicates over a whole list.
use Prim.Native.Nat.{ℕ, zero, suc, ◌+◌}
use mathlib.Core.Path.{◌≡◌, refl, ap, fun_ext}
use mathlib.Core.List.{List, [], ◌∷◌, ◌++◌, map}
use native.Mathlib.Omega.{arith}

module _ {ℓ} {A : Type ℓ} where
  abbrev pub length : List A → ℕ
  length [] = 0
  length (x ∷ xs) = suc (length xs)

  pub length-append : (xs ys : List A) → length (xs ++ ys) ≡ length xs + length ys
  length-append [] ys = omega arith
  length-append (x ∷ xs) ys = omega (arith, length-append xs ys)

module _ {ℓ} {A : Type ℓ} where
  unfoldable pub take : ℕ → List A → List A
  take n [] = []
  take zero (x ∷ xs) = []
  take (suc n) (x ∷ xs) = x ∷ take n xs

  unfoldable pub drop : ℕ → List A → List A
  drop n [] = []
  drop zero (x ∷ xs) = x ∷ xs
  drop (suc n) (x ∷ xs) = drop n xs

-- The predicate holds of every entry.
abbrev pub All {ℓ κ} : {A : Type ℓ} → (A → Type κ) → List A → Type κ
All P [] = Unit
All P (x ∷ xs) = P x × All P xs

pub All-mono {ℓ κ μ} :
    {A : Type ℓ} {P : A → Type κ} {Q : A → Type μ} (xs : List A)
    → ((a : A) → P a → Q a)
    → All P xs
    → All Q xs
All-mono [] f h = tt
All-mono (x ∷ xs) f h = (f x h.0, All-mono xs f h.1)

pub All-map₂ {ℓ κ μ ν} :
    {A : Type ℓ} {P : A → Type κ} {Q : A → Type μ} {R : A → Type ν} (xs : List A)
    → ((a : A) → P a → Q a → R a)
    → All P xs
    → All Q xs
    → All R xs
All-map₂ [] f h k = tt
All-map₂ (x ∷ xs) f h k = (f x h.0 k.0, All-map₂ xs f h.1 k.1)

pub map-map {ℓ κ μ} :
    {A : Type ℓ} {B : Type κ} {C : Type μ} (g : B → C) (f : A → B) (xs : List A)
    → map g (map f xs) ≡ map (λ x. g (f x)) xs
map-map g f [] = refl
map-map g f (x ∷ xs) = ap (λ ys. g (f x) ∷ ys) (map-map g f xs)

pub map_same {ℓ} : {A : Type ℓ} (xs : List A) → map (λ x. x) xs ≡ xs
map_same [] = refl
map_same (x ∷ xs) = ap (λ ys. x ∷ ys) (map_same xs)

pub map-congr {ℓ κ} :
    {A : Type ℓ} {B : Type κ} (f g : A → B) (xs : List A)
    → ((x : A) → f x ≡ g x)
    → map f xs ≡ map g xs
map-congr f g xs h = ap (λ k. map k xs) (fun_ext h)

-- What holds of the image of every entry holds of every entry of the image.
pub All-map {ℓ κ μ} :
    {A : Type ℓ} {B : Type κ} {P : A → Type μ} (Q : B → Type μ) (f : A → B) (xs : List A)
    → ((a : A) → P a → Q (f a))
    → All P xs
    → All Q (map f xs)
All-map Q f [] step h = tt
All-map Q f (x ∷ xs) step h = (step x h.0, All-map Q f xs step h.1)

pub map-congr-All {ℓ κ} :
    {A : Type ℓ} {B : Type κ} (f g : A → B) (xs : List A)
    → All (λ x. f x ≡ g x) xs
    → map f xs ≡ map g xs
map-congr-All f g [] h = refl
map-congr-All f g (x ∷ xs) h = rw (h.0, map-congr-All f g xs h.1) refl
