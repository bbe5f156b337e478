-- ===== src/Tests/Gate.antt =====
-- The quality gate on four listings: one pending with an old sample, one pending past its deadline,
-- one active and silent, one broken whose latest sample is ok.
use abr_out.Prelude.{ℕ, [], ◌∷◌, none, some, Bool, true, false, ◌≡◌, refl, map}
use abr_out.Prelude.Rows.{exists_row, unique_on}
use abr_out.Prelude.Keyed.{IsKey}
use abr_out.Models.{Db, Listing, ListingStatus, PingSample}
use abr_out.Outside.{World}
use abr_out.Health.{listing_quality_gate_once, has_recovered, latest_sample, had_ok}
use abr_out.Health.Passes.{with_listings}
use abr_out.Health.Gate.{health, listing_quality_gate-refines}
use abr_out.Tests.Sample.{listing, market, world_of}

abbrev waiting : Listing
waiting = record listing { id = 1; status = ListingStatus.pending; pending_until_at = some 9_000 }

abbrev overdue : Listing
overdue = record listing {
  id = 2;
  status = ListingStatus.pending;
  pending_until_at = some 900;
  broken_notify_count = 3;
}

abbrev silent : Listing
silent = record listing {
  id = 3;
  last_probed_at = some 990;
  last_ok_ping_at = some 100;
  broken_notify_count = 2;
}

abbrev back : Listing
back = record listing { id = 4; status = ListingStatus.broken; broken_since = some 500 }

abbrev sample : ℕ → ℕ → Bool → PingSample
sample id at ok = record { listing_id = id; rtt_ms = none; ok = ok; sampled_at = at }

abbrev watched : Db
watched = record market {
  listings = waiting ∷ overdue ∷ silent ∷ back ∷ [];
  ping_samples =
      sample 4 800 true ∷ sample 4 700 false ∷ sample 3 990 false ∷ sample 1 10 true ∷ [];
}

abbrev gate : World
gate = listing_quality_gate_once 1_000 600 (world_of watched)

watched_ids : IsKey (λ l. l.id) watched.listings
unfolding unique_on exists_row
watched_ids = refl

-- The run by its clauses: one promoted, two broken, one recovered.
statuses :
    map (λ l. l.status) gate.db.listings
    ≡ ListingStatus.active ∷ ListingStatus.broken ∷ ListingStatus.broken ∷ ListingStatus.active ∷ []
unfolding listing_quality_gate_once had_ok latest_sample has_recovered
statuses = refl

listing_quality_gate-refines_example :
    gate.db ≡ with_listings watched (map (health 1_000 600 watched.ping_samples) watched.listings)
listing_quality_gate-refines_example =
    listing_quality_gate-refines 1_000 600 (world_of watched) watched_ids
