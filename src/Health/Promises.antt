-- ===== src/Health/Promises.antt =====
-- What the quality gate promises to sellers and buyers of one listing.
use abr_out.Prelude.{
  ℕ, List, [], ◌∷◌, Option, none, some, Bool, true, false, ◌≡◌, ◌==◌, ◌≤◌, ◌⊎◌, arith, ◌&&◌, All,
  All-map,
}
use abr_out.Prelude.Rows.{first_row, exists_row}
use abr_out.Prelude.Keyed.{IsKey, first_row-map}
use abr_out.Models.{Db, Listing, ListingStatus, PingSample, listing_active}
use abr_out.Outside.{World}
use abr_out.Health.{
  had_ok, is_due, has_recovered, latest_sample, was_ok, broken_notify_cap,
  listing_quality_gate_once,
}
use abr_out.Health.Gate.{
  health, after_passes, after_test, after_demotion, listing_quality_gate-refines,
}

abbrev pub listing_row : ℕ → Db → Option Listing
listing_row k db = first_row (λ l. l.id == k) db.listings

-- Some sample says that the listing answered.
unfoldable pub has_answered : List PingSample → ℕ → Bool
unfolding exists_row
has_answered samples k = exists_row (λ s. s.listing_id == k && s.ok) samples

had_ok-has_answered :
    (ss : List PingSample) (l : Listing) → had_ok ss l ≡ true → has_answered ss l.id ≡ true
unfolding had_ok has_answered exists_row
had_ok-has_answered [] l h = h
had_ok-has_answered (s ∷ ss) l h = ground (arith, had_ok-has_answered ss l)

latest_sample-has_answered :
    (ss : List PingSample) (k since : ℕ)
    → was_ok (latest_sample k since ss) ≡ true
    → has_answered ss k ≡ true
unfolding latest_sample has_answered exists_row
latest_sample-has_answered [] k since h = h
latest_sample-has_answered (s ∷ ss) k since h =
    ground (arith, latest_sample-has_answered ss k since)

has_recovered-has_answered :
    (ss : List PingSample) (l : Listing) → has_recovered ss l ≡ true → has_answered ss l.id ≡ true
unfolding has_recovered
has_recovered-has_answered ss l h = latest_sample-has_answered ss l.id _ h

module _ (now cutoff : ℕ) (ss : List PingSample) where
  passes-answered :
      (l : Listing)
      → listing_active l.status ≡ false
      → (listing_active (after_passes now cutoff ss l).status ≡ false)
        ⊎ (has_answered ss l.id ≡ true)
  passes-answered l h = ground (
    arith,
    has_recovered-has_answered ss (after_demotion now cutoff (after_test now ss l)),
    had_ok-has_answered ss l,
  )

  health-status :
      (l : Listing) → (health now cutoff ss l).status ≡ (after_passes now cutoff ss l).status
  health-status l = ground arith

  -- At most three notices of one outage are counted.
  health-count :
      (l : Listing)
      → l.broken_notify_count ≤ broken_notify_cap
      → (health now cutoff ss l).broken_notify_count ≤ broken_notify_cap
  health-count l h = ground arith

  health-due :
      (l : Listing)
      → l.status ≡ ListingStatus.pending
      → is_due now l.pending_until_at ≡ true
      → ((health now cutoff ss l).status ≡ ListingStatus.active)
        ⊎ ((health now cutoff ss l).status ≡ ListingStatus.broken)
  health-due l p d = ground arith

  health-recovers :
      (l : Listing)
      → l.status ≡ ListingStatus.broken
      → has_recovered ss l ≡ true
      → ((health now cutoff ss l).status ≡ ListingStatus.active)
        × ((health now cutoff ss l).broken_since ≡ none)
        × ((health now cutoff ss l).broken_notify_count ≡ 0)
  health-recovers l b r = ground arith

  health-id : (l : Listing) → (health now cutoff ss l).id ≡ l.id
  health-id l = ground arith

module _ (now cutoff : ℕ) (w : World) (key : IsKey (λ l. l.id) w.db.listings) where
  -- The row of a listing after the run.
  pub row_after :
      (k : ℕ) (x : Listing)
      → listing_row k w.db ≡ some x
      → (listing_row k (listing_quality_gate_once now cutoff w).db
          ≡ some (health now cutoff w.db.ping_samples x))
        × (x.id ≡ k)
  row_after k x h = rw (listing_quality_gate-refines now cutoff w key) (
      first_row-map (λ l. l.id) (health now cutoff w.db.ping_samples) k x w.db.listings
        (health-id now cutoff w.db.ping_samples) h)

  -- Where the ids of the listings are a key, a listing that a run of the quality gate makes active
  -- has an ok sample: a listing that was not active is there after the run, and is not active or
  -- some sample says that it answered.
  pub listing_quality_gate-answered :
      (k : ℕ) (x : Listing)
      → listing_row k w.db ≡ some x
      → listing_active x.status ≡ false
      → (y : Listing) × (listing_row k (listing_quality_gate_once now cutoff w).db ≡ some y)
        × ((listing_active y.status ≡ false) ⊎ (has_answered w.db.ping_samples k ≡ true))
  listing_quality_gate-answered k x h i =
      let (found, same) = row_after k x h in
      (
        _,
        found,
        ground (
          arith,
          same,
          passes-answered now cutoff w.db.ping_samples x i,
          health-status now cutoff w.db.ping_samples x,
        ),
      )

  -- Where the ids of the listings are a key, a pending listing whose deadline passed, or that has
  -- none, is active or broken after a run of the quality gate.
  pub listing_quality_gate-decides :
      (k : ℕ) (x : Listing)
      → listing_row k w.db ≡ some x
      → x.status ≡ ListingStatus.pending
      → is_due now x.pending_until_at ≡ true
      → (y : Listing) × (listing_row k (listing_quality_gate_once now cutoff w).db ≡ some y)
        × ((y.status ≡ ListingStatus.active) ⊎ (y.status ≡ ListingStatus.broken))
  listing_quality_gate-decides k x h p d =
      (_, (row_after k x h).0, health-due now cutoff w.db.ping_samples x p d)

  -- Where the ids of the listings are a key, a broken listing whose latest sample since it broke is
  -- ok is active after a run of the quality gate, with no outage and no notice on record.
  pub listing_quality_gate-recovers :
      (k : ℕ) (x : Listing)
      → listing_row k w.db ≡ some x
      → x.status ≡ ListingStatus.broken
      → has_recovered w.db.ping_samples x ≡ true
      → (y : Listing) × (listing_row k (listing_quality_gate_once now cutoff w).db ≡ some y)
        × (y.status ≡ ListingStatus.active)
        × (y.broken_since ≡ none)
        × (y.broken_notify_count ≡ 0)
  listing_quality_gate-recovers k x h b r =
      let (active, cleared, reset) = health-recovers now cutoff w.db.ping_samples x b r in
      (_, (row_after k x h).0, active, cleared, reset)

  -- Where the ids of the listings are a key, a run of the quality gate keeps the counted notices of
  -- every listing at three or fewer.
  pub listing_quality_gate-capped :
      All (λ l. l.broken_notify_count ≤ broken_notify_cap) w.db.listings
      → All
          (λ l. l.broken_notify_count ≤ broken_notify_cap)
          (listing_quality_gate_once now cutoff w).db.listings
  listing_quality_gate-capped h = rw (listing_quality_gate-refines now cutoff w key) (
      All-map (λ l. l.broken_notify_count ≤ broken_notify_cap) (health now cutoff w.db.ping_samples)
        w.db.listings (health-count now cutoff w.db.ping_samples) h)
