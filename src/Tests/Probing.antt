-- ===== src/Tests/Probing.antt =====
-- A batch of the prober on the sample, a late one and one for a listing that is not there included,
-- and the aggregation of the stored samples.
use abr_out.Prelude.{ℕ, List, [], ◌∷◌, Option, none, some, true, false, ◌≡◌, ◌==◌, refl, map}
use abr_out.Prelude.Int.{ℤ, pos}
use abr_out.Prelude.Rows.{first_row}
use abr_out.Models.{Db}
use abr_out.Prober.{PingSampleIn, post_samples, note_latest, scaled_rtt}
use abr_out.Prober.Bookkeeping.{after_samples, post_samples-refines}
use abr_out.Pings.{
  aggregate_pings_once, avg_by_listing, stab_by_listing, listing_ids, group_rows, get_value, avg_of,
  stability_of, recent_rtts,
}
use abr_out.Tests.Sample.{listing, market}

abbrev sent : ℕ → ℤ → ℕ → PingSampleIn
sent id rtt at = record { listing_id = id; rtt_ms = some rtt; ok = true; sampled_at = some at }

abbrev failed : PingSampleIn
failed = record { listing_id = 1; rtt_ms = none; ok = false; sampled_at = none }

abbrev batch : List PingSampleIn
batch = sent 1 (pos 130) 70 ∷ sent 9 (pos 130) 80 ∷ failed ∷ sent 1 (pos 130) 40 ∷ []

abbrev probed : Db
probed = record market { listings = record listing { last_probed_at = some 60 } ∷ [] }

abbrev stored : Db
stored = post_samples 100 101 batch probed

times :
    map {B = Option ℕ × Option ℕ} (λ l. (l.last_probed_at, l.last_ok_ping_at)) stored.listings
    ≡ (some 100, some 70) ∷ []
unfolding post_samples note_latest
times = refl

rtts : map (λ s. s.rtt_ms) stored.ping_samples ≡ some (pos 100) ∷ none ∷ some (pos 100) ∷ []
unfolding post_samples scaled_rtt
rtts = refl

post_samples-refines_example : stored.listings ≡ map (after_samples 100 batch) probed.listings
post_samples-refines_example = post_samples-refines 100 101 batch probed

probed_row :
    first_row (λ l. l.id == 1) probed.listings ≡ some (record listing { last_probed_at = some 60 })
unfolding first_row
probed_row = refl

averages :
    map {B = Option ℤ × Option ℕ}
      (λ l. (l.avg_ping_ms, l.stability_pct))
      (aggregate_pings_once 50 40 stored).listings
    ≡ (some (pos 100), some 67) ∷ []
unfolding aggregate_pings_once listing_ids avg_by_listing stab_by_listing group_rows get_value
    avg_of stability_of post_samples recent_rtts scaled_rtt
averages = refl
