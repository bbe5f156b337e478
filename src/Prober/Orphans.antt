-- ===== src/Prober/Orphans.antt =====
-- No sample is stored for a listing that is not there.
use abr_out.Prelude.{
  ℕ, List, [], ◌∷◌, Bool, true, ◌≡◌, ◌==◌, All, All-mono, refl, ap, ◌∙◌, arith, map,
}
use abr_out.Prelude.Rows.{exists_row}
use abr_out.Prelude.Keyed.{exists_row-map, All-selected}
use abr_out.Models.{Db, Listing, PingSample}
use abr_out.Prober.{PingSampleIn, sample_row, collect, known_samples, store_samples, post_samples}
use abr_out.Prober.Bookkeeping.{after_samples, contains-known, post_samples-refines}

abbrev pub has_listing : List Listing → ℕ → Bool
has_listing ls k = exists_row (λ l. l.id == k) ls

-- The listing of every stored sample is there.
abbrev pub HasListings : Db → Type 0
HasListings db = All (λ s. has_listing db.listings s.listing_id ≡ true) db.ping_samples

collect-rows :
    (P : ℕ → Type 0) (now db_now : ℕ) (ss : List PingSampleIn) (rows : List PingSample)
    (p o : List (ℕ × ℕ))
    → All (λ s. P s.listing_id) ss
    → All (λ s. P s.listing_id) rows
    → All (λ s. P s.listing_id) (collect now db_now ss (rows, p, o)).0
unfolding collect
collect-rows P now db_now [] rows p o h k = k
collect-rows P now db_now (s ∷ ss) rows p o h k =
    collect-rows P now db_now ss (sample_row db_now s ∷ rows) _ _ h.1 (h.0, k)

store_samples-rows :
    (P : ℕ → Type 0) (now db_now : ℕ) (ss : List PingSampleIn) (db : Db)
    → All (λ s. P s.listing_id) ss
    → All (λ s. P s.listing_id) db.ping_samples
    → All (λ s. P s.listing_id) (store_samples now db_now ss db).ping_samples
unfolding store_samples
store_samples-rows P now db_now [] db h k = k
store_samples-rows P now db_now (s ∷ ss) db h k =
    collect-rows P now db_now (s ∷ ss) db.ping_samples [] [] h k

known_samples-has_listing :
    (ls : List Listing) (samples : List PingSampleIn)
    → All (λ s. has_listing ls s.listing_id ≡ true) (known_samples ls samples)
unfolding known_samples
known_samples-has_listing ls samples =
    let cs = map (λ s. s.listing_id) samples in
    All-mono (known_samples ls samples)
      (λ s e. ground (arith, contains-known s.listing_id cs ls, e)) (All-selected _ samples)

-- A batch of samples, whatever ids it names, keeps every stored sample's listing there.
pub post_samples-HasListings :
    (now db_now : ℕ) (samples : List PingSampleIn) (db : Db)
    → HasListings db
    → HasListings (post_samples now db_now samples db)
unfolding post_samples
post_samples-HasListings now db_now samples db h =
    let known = known_samples db.listings samples in
    All-mono (post_samples now db_now samples db).ping_samples
      (λ s e.
        ap (λ ls. has_listing ls s.listing_id) (post_samples-refines now db_now samples db)
        ∙ exists_row-map (λ l. l.id) (after_samples now samples) s.listing_id db.listings
            (λ l. refl)
        ∙ e)
      (store_samples-rows (λ k. has_listing db.listings k ≡ true) now db_now known db
        (known_samples-has_listing db.listings samples) h)
