-- ===== src/Listings/Retest.antt =====
-- `retry_listing`, `enable_listing` and `disable_listing`, and what a retried test is worth.
use abr_out.Prelude.{ℕ, List, none, some, true, false, ◌≡◌, ◌==◌, refl, arith, if◌then◌else◌}
use abr_out.Prelude.Rows.{update_rows}
use abr_out.Prelude.Keyed.{IsKey, first_row-update, IsKey-update_rows}
use abr_out.Models.{Db, Listing, ListingStatus, PingSample, listing_active, listing_broken}
use abr_out.Outside.{World}
use abr_out.Http.{HttpError, Outcome, ok, fail}
use abr_out.Health.{had_ok, is_silent, listing_quality_gate_once, write_listing}
use abr_out.Health.Gate.{health}
use abr_out.Health.Promises.{listing_row, row_after}
use abr_out.Listings.{load_owned_listing}

abbrev pub write_row : (Listing → Listing) → ℕ → World → World
write_row f k w = record w { db = write_listing f k w.db }

abbrev pub when_ok :
    Outcome Listing → World → (Listing → Outcome Listing × World) → Outcome Listing × World
when_ok (ok l) w next = next l
when_ok (fail e) w next = (fail e, w)

abbrev pub retest : ℕ → Listing → Listing
retest pending_until l = record l {
  status = ListingStatus.pending;
  pending_until_at = some pending_until;
  broken_since = none;
}

abbrev pub retry_owned : ℕ → World → Listing → Outcome Listing × World
retry_owned pending_until w l =
    if listing_broken l.status
    then (ok (retest pending_until l), write_row (retest pending_until) l.id w)
    else (fail HttpError.not_broken, w)

-- `retry_listing`
unfoldable pub retry_listing : ℕ → ℕ → ℕ → World → Outcome Listing × World
unfolding load_owned_listing update_rows
retry_listing pending_until k user w =
    when_ok (load_owned_listing k user w.db) w (retry_owned pending_until w)

abbrev pub put_on_sale : Listing → Listing
put_on_sale l = record l { status = ListingStatus.active; disabled_at = none }

abbrev pub enable_owned : World → Listing → Outcome Listing × World
enable_owned w l =
    if listing_active l.status
    then (ok l, w)
    else (ok (put_on_sale l), write_row put_on_sale l.id w)

-- `enable_listing`
unfoldable pub enable_listing : ℕ → ℕ → World → Outcome Listing × World
unfolding load_owned_listing update_rows
enable_listing k user w = when_ok (load_owned_listing k user w.db) w (enable_owned w)

load_owned_listing-row :
    (k user : ℕ) (db : Db) (l : Listing)
    → listing_row k db ≡ some l
    → listing_broken l.status ≡ true
    → l.seller_user_id ≡ user
    → load_owned_listing k user db ≡ ok l
unfolding load_owned_listing
load_owned_listing-row k user db l found broken mine = ground (arith, found, broken, mine)

health-retest :
    (pending_until now cutoff : ℕ) (ss : List PingSample) (l : Listing)
    → had_ok ss l ≡ true
    → is_silent cutoff l ≡ false
    → (health now cutoff ss (retest pending_until l)).status ≡ ListingStatus.active
unfolding had_ok
health-retest pending_until now cutoff ss l heard loud = ground (arith, heard, loud)

-- Where the ids of the listings are a key, to retry a broken listing of one's own puts it back on
-- sale at the next run of the quality gate, without any new sample, if some sample since the listing
-- was created is ok and the listing is not silent.
pub retry_listing-promotes :
    (pending_until k user now cutoff : ℕ) (w : World) (l : Listing)
    → IsKey (λ x. x.id) w.db.listings
    → listing_row k w.db ≡ some l
    → listing_broken l.status ≡ true
    → l.seller_user_id ≡ user
    → had_ok w.db.ping_samples l ≡ true
    → is_silent cutoff l ≡ false
    → let (answer, w') = retry_listing pending_until k user w in
      (answer ≡ ok (retest pending_until l))
      × (y : Listing) × (listing_row k (listing_quality_gate_once now cutoff w').db ≡ some y)
      × (y.status ≡ ListingStatus.active)
unfolding retry_listing
retry_listing-promotes pending_until k user now cutoff w l key found broken mine heard loud =
    let w' = write_row (retest pending_until) l.id w in
    let key' =
      IsKey-update_rows (λ x. x.id) (λ x. x.id == l.id) (retest pending_until) (λ x. refl)
        w.db.listings key in
    let row' =
      first_row-update (λ x. x.id) (λ x. x.id == k) (retest pending_until) l w.db.listings
        (λ x. refl) found in
    rw (load_owned_listing-row k user w.db l found broken mine, broken)
      (
        refl,
        _,
        (row_after now cutoff w' key' k (retest pending_until l) row').0,
        health-retest pending_until now cutoff w.db.ping_samples l heard loud,
      )
