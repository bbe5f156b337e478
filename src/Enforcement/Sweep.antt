-- ===== src/Enforcement/Sweep.antt =====
-- Both passes sweep over the buyers of some configs, and over the joined rows of each buyer. The
-- sweep comes to a single UPDATE.
use abr_out.Prelude.{
  ℕ, List, [], ◌∷◌, Bool, ◌&&◌, ◌==◌, ◌≡◌, true, refl, sym, ap, ◌∙◌, inl, inr, arith, if◌then◌else◌,
  Bool-cases, All, All-mono,
}
use abr_out.Prelude.Rows.{select, update_rows, exists_row, contains, distinct}
use abr_out.Prelude.Keyed.{
  update_each, update_rows-congr, update_rows-none, update_rows-update_rows, IsKey,
  IsKey-update_rows,
}
use abr_out.Models.{Config, Listing}
use abr_out.Join.{join_listing, selected, update_each-join}
use abr_out.Enforcement.{buyers_where}
use mathlib.Core.List.{map}
use mathlib.Core.Path.{fun_ext, subst}

contains-distinct : (a : ℕ) (xs : List ℕ) → contains a (distinct xs) ≡ contains a xs
unfolding contains distinct
contains-distinct a [] = refl
contains-distinct a (x ∷ xs) = ground (arith, contains-distinct a xs, contains-distinct x xs)

contains-buyers :
    (p : Config → Bool) (cs : List Config)
    → All
        (λ c.
          p c ≡ true → contains c.buyer_user_id (map (λ x. x.buyer_user_id) (select p cs)) ≡ true)
        cs
unfolding contains select
contains-buyers p [] = tt
contains-buyers p (c ∷ cs) =
    (λ h. ground arith, All-mono cs (λ x h own. ground (arith, h own)) (contains-buyers p cs))

module _ (own : Config → Bool) (pays : ℕ → Bool) (ls : List Listing)
    (test : Config × Listing → Bool) (f : Config → Config) where
  abbrev of_buyer : ℕ → Config → Bool
  of_buyer b c = c.buyer_user_id == b && own c

  unfoldable pub sweep_buyer : ℕ → List Config → List Config
  sweep_buyer b cs =
      if pays b
      then update_each (λ c. c.id) f (λ r. r.0.id) test (join_listing (of_buyer b) ls cs) cs
      else cs

  unfoldable pub sweep : List ℕ → List Config → List Config
  unfolding sweep_buyer
  sweep [] cs = cs
  sweep (b ∷ bs) cs = sweep bs (sweep_buyer b cs)

  -- The rows that a whole sweep updates.
  abbrev pub swept : Config → Bool
  swept c = pays c.buyer_user_id && selected own ls test c

  abbrev swept_of : ℕ → Config → Bool
  swept_of b c = pays b && selected (of_buyer b) ls test c

  abbrev swept_by : List ℕ → Config → Bool
  swept_by bs c = exists_row (λ b. swept_of b c) bs

  swept_by-eq :
      (bs : List ℕ) (c : Config) → swept_by bs c ≡ (contains c.buyer_user_id bs && swept c)
  unfolding exists_row contains
  swept_by-eq [] c = refl
  swept_by-eq (b ∷ bs) c = ground (arith, swept_by-eq bs c)

  module _ (again : (a : Config) → f (f a) ≡ f a) (keep : (a : Config) → (f a).id ≡ a.id) where
    sweep_buyer-eq :
        (b : ℕ) (cs : List Config)
        → IsKey (λ c. c.id) cs
        → sweep_buyer b cs ≡ update_rows (swept_of b) f cs
    unfolding sweep_buyer
    sweep_buyer-eq b cs key = elim (Bool-cases (pays b)) [
      | inl hit ↦ rw hit (
          update_each-join (of_buyer b) ls test f again cs key
          ∙ ap (λ q. update_rows q f cs) (fun_ext λ c. ground arith))
      | inr miss ↦
          rw miss
            (sym (update_rows-none f cs) ∙ ap (λ q. update_rows q f cs) (fun_ext λ c. ground arith))
    ]

    sweep-eq :
        (bs : List ℕ) (cs : List Config)
        → IsKey (λ c. c.id) cs
        → sweep bs cs ≡ update_rows (swept_by bs) f cs
    unfolding sweep exists_row
    sweep-eq [] cs key = sym (update_rows-none f cs)
    sweep-eq (b ∷ bs) cs key =
        sweep-eq bs (sweep_buyer b cs) (
          subst (IsKey (λ c. c.id)) (sym (sweep_buyer-eq b cs key))
            (IsKey-update_rows (λ c. c.id) (swept_of b) f keep cs key))
        ∙ ap (update_rows (swept_by bs) f) (sweep_buyer-eq b cs key)
        ∙ update_rows-update_rows f again (swept_by bs) (swept_of b) cs

    -- A sweep over the buyers of the rows in question is one UPDATE of the table.
    pub sweep-refines :
        (cs : List Config)
        → IsKey (λ c. c.id) cs
        → sweep (buyers_where own cs) cs ≡ update_rows swept f cs
    unfolding buyers_where
    sweep-refines cs key =
        sweep-eq _ cs key
        ∙ update_rows-congr _ swept f cs (
            All-mono cs
              (λ c h. ground (
                arith,
                swept_by-eq (distinct (map (λ x. x.buyer_user_id) (select own cs))) c,
                contains-distinct c.buyer_user_id (map (λ x. x.buyer_user_id) (select own cs)),
                h,
              ))
              (contains-buyers own cs))
