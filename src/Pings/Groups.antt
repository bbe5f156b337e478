-- ===== src/Pings/Groups.antt =====
-- The dictionaries of the aggregation, `avg_by_listing` and `stab_by_listing`, by key.
use abr_out.Prelude.{
  ℕ, List, [], ◌∷◌, ◌++◌, Option, none, Bool, ◌&&◌, ◌||◌, ◌≡◌, ◌==◌, ==→eq, refl, sym, ap, ◌∙◌,
  arith, map, if◌then◌else◌, Bool-cases, inl, inr,
}
use abr_out.Prelude.Rows.{select, contains, distinct, exists_row}
use abr_out.Models.{PingSample}
use abr_out.Pings.{group_rows, get_value}

pub contains-distinct : (k : ℕ) (ks : List ℕ) → contains k (distinct ks) ≡ contains k ks
unfolding contains distinct
contains-distinct k [] = refl
contains-distinct k (j ∷ ks) = elim (Bool-cases (contains j (distinct ks))) [
  | inr new ↦ rw new (ap (λ b. (k == j) || b) (contains-distinct k ks))
  | inl old ↦ elim (Bool-cases (k == j)) [
    | inl hit ↦ rw old (rw hit (ap (λ i. contains i (distinct ks)) (==→eq k j hit) ∙ old))
    | inr miss ↦ rw old (rw miss (contains-distinct k ks))
  ]
]

pub contains-append :
    (k : ℕ) (js ks : List ℕ) → contains k (js ++ ks) ≡ (contains k js || contains k ks)
unfolding contains
contains-append k [] ks = refl
contains-append k (j ∷ js) ks = ground (arith, contains-append k js ks)

-- A group is there if one of the selected samples is of its listing.
contains-ids :
    (p q : PingSample → Bool) (k : ℕ)
    → ((s : PingSample) → (k == s.listing_id && p s) ≡ q s)
    → (ss : List PingSample) → contains k (map (λ s. s.listing_id) (select p ss)) ≡ exists_row q ss
unfolding contains select exists_row
contains-ids p q k same [] = refl
contains-ids p q k same (s ∷ ss) = ground (arith, same s, contains-ids p q k same ss)

get_value-map :
    {V : Type 0} (f : ℕ → Option V) (k : ℕ) (ks : List ℕ)
    → get_value k (map (λ j. (j, f j)) ks) ≡ (if contains k ks then f k else none)
unfolding get_value contains
get_value-map f k [] = refl
get_value-map f k (j ∷ ks) = elim (Bool-cases (k == j)) [
  | inl hit ↦ rw hit (ap f (sym (==→eq k j hit)))
  | inr miss ↦ rw miss (get_value-map f k ks)
]

keys-map :
    {V : Type 0} (f : ℕ → Option V) (ks : List ℕ)
    → map (λ (r : ℕ × Option V). r.0) (map (λ j. (j, f j)) ks) ≡ ks
keys-map f [] = refl
keys-map f (k ∷ ks) = ap (λ js. k ∷ js) (keys-map f ks)

pub get_value-group_rows :
    {V : Type 0} (f : ℕ → Option V) (p q : PingSample → Bool) (k : ℕ)
    → ((s : PingSample) → (k == s.listing_id && p s) ≡ q s)
    → (ss : List PingSample)
    → get_value k (group_rows f (select p ss)) ≡ (if exists_row q ss then f k else none)
unfolding group_rows
get_value-group_rows f p q k same ss =
    get_value-map f k (distinct (map (λ s. s.listing_id) (select p ss)))
    ∙ ap (λ b. if b then f k else none)
        (contains-distinct k (map (λ s. s.listing_id) (select p ss)) ∙ contains-ids p q k same ss)

pub contains-group_rows :
    {V : Type 0} (f : ℕ → Option V) (p q : PingSample → Bool) (k : ℕ)
    → ((s : PingSample) → (k == s.listing_id && p s) ≡ q s)
    → (ss : List PingSample)
    → contains k (map (λ (r : ℕ × Option V). r.0) (group_rows f (select p ss))) ≡ exists_row q ss
unfolding group_rows
contains-group_rows f p q k same ss =
    ap (contains k) (keys-map f (distinct (map (λ s. s.listing_id) (select p ss))))
    ∙ contains-distinct k (map (λ s. s.listing_id) (select p ss))
    ∙ contains-ids p q k same ss
