-- ===== src/Join.antt =====
-- The query `select(Config, Listing).join(Listing, Listing.id == Config.listing_id).where(…)` that
-- app/worker/jobs/enforce_quota.py and enforce_balance.py loop over, and what the loop comes to.
use abr_out.Prelude.{
  List, [], ◌∷◌, Option, none, some, Bool, false, ◌&&◌, ◌==◌, ◌≡◌, refl, ap, ◌∙◌, arith,
  if◌then◌else◌,
}
use abr_out.Prelude.Rows.{update_rows, first_row, exists_row}
use abr_out.Prelude.Keyed.{
  update_each, picked, update_each-eq, update_rows-congr, picked_self, IsKey,
}
use abr_out.Models.{Config, Listing}
use mathlib.Core.Path.{fun_ext}

abbrev pub listing_of : List Listing → Config → Option Listing
listing_of ls c = first_row (λ l. l.id == c.listing_id) ls

unfoldable pub join_listing : (Config → Bool) → List Listing → List Config → List (Config × Listing)
join_listing p ls [] = []
join_listing p ls (c ∷ cs) =
    let rest = join_listing p ls cs in
    if p c then elim (listing_of ls c) [ none ↦ rest | some l ↦ (c, l) ∷ rest ] else rest

abbrev pub test_pair : (Config × Listing → Bool) → Config → Option Listing → Bool
test_pair test c none = false
test_pair test c (some l) = test (c, l)

-- The config is selected, its listing is there, and the pair passes the test.
abbrev pub selected : (Config → Bool) → List Listing → (Config × Listing → Bool) → Config → Bool
selected p ls test c = p c && test_pair test c (listing_of ls c)

module _ (p : Config → Bool) (ls : List Listing) (test : Config × Listing → Bool) where
  picked-join :
      (cs : List Config) (x : Config)
      → picked (λ c. c.id) (λ c. c) (λ r. r.0.id) test (join_listing p ls cs) x
        ≡ exists_row (λ c. selected p ls test c && x.id == c.id) cs
  unfolding join_listing exists_row
  picked-join [] x = refl
  picked-join (c ∷ cs) x = ground (arith, picked-join cs x)

  -- Over a table whose ids are a key, the loop updates the selected rows and no others.
  pub update_each-join :
      (f : Config → Config)
      → ((a : Config) → f (f a) ≡ f a)
      → (cs : List Config) → IsKey (λ c. c.id) cs
      → update_each (λ c. c.id) f (λ r. r.0.id) test (join_listing p ls cs) cs
        ≡ update_rows (selected p ls test) f cs
  update_each-join f again cs key =
      update_each-eq (λ c. c.id) f (λ r. r.0.id) again test (join_listing p ls cs) cs
      ∙ ap (λ q. update_rows q f cs) (fun_ext (picked-join cs))
      ∙ update_rows-congr _ (selected p ls test) f cs
          (picked_self (λ c. c.id) (selected p ls test) cs key)
