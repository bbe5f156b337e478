-- ===== src/Pings.antt =====
-- app/worker/jobs/aggregate_ping.py: the mean ping and the stability that the market shows. The
-- database's `avg` and Python's quotient are exact up to a rounding that cannot reach the next whole
-- number, since their denominators count rows. Log lines are left out.
pub mod Values
pub mod Groups
pub mod Refreshed
use abr_out.Prelude.{
  ℕ, suc, ◌+◌, ◌*◌, ◌/◌, List, [], ◌∷◌, ◌++◌, Option, none, some, Bool, ◌&&◌, ◌==◌, leb, map,
  length, if◌then◌else◌,
}
use abr_out.Prelude.Int.{ℤ, pos, negsuc, neg, ◌+ℤ◌}
use abr_out.Prelude.Rows.{select, update_rows, contains, distinct}
use abr_out.Prelude.Rounding.{round_half_even}
use abr_out.Models.{Db, Listing, PingSample}

-- The pings of a listing that `func.avg` reads: NULL does not count.
unfoldable pub recent_rtts : ℕ → ℕ → List PingSample → List ℤ
recent_rtts cutoff k [] = []
recent_rtts cutoff k (s ∷ ss) =
    let rest = recent_rtts cutoff k ss in
    elim s.rtt_ms [
      | none ↦ rest
      | some rtt ↦ if s.listing_id == k && s.ok && leb cutoff s.sampled_at then rtt ∷ rest else rest
    ]

unfoldable pub sum_ints : List ℤ → ℤ
unfolding ◌+ℤ◌
sum_ints [] = pos 0
sum_ints (a ∷ more) = a +ℤ sum_ints more

-- `int(a / n)`, towards zero.
unfoldable pub truncated : ℤ → ℕ → ℤ
unfolding neg
truncated (pos a) n = pos (a / n)
truncated (negsuc a) n = neg (pos (suc a / n))

-- `int(avg)` of one group, none where `avg` is NULL.
unfoldable pub avg_of : ℕ → ℕ → List PingSample → Option ℤ
unfolding recent_rtts sum_ints truncated
avg_of cutoff k samples = elim (recent_rtts cutoff k samples) [
  | [] ↦ none
  | a ∷ more ↦ some (truncated (sum_ints (a ∷ more)) (length (a ∷ more)))
]

abbrev pub in_window : ℕ → PingSample → Bool
in_window cutoff s = leb cutoff s.sampled_at

-- The percentage of one group; none where the group is skipped as empty.
unfoldable pub stability_of : ℕ → ℕ → List PingSample → Option ℕ
unfolding select round_half_even
stability_of cutoff k samples =
    let rows = select (λ s. s.listing_id == k && in_window cutoff s) samples in
    let ok_count = length (select (λ s. s.ok) rows) in
    if length rows == 0 then none else some (round_half_even (ok_count * 100) (length rows))

-- `GROUP BY listing_id`: one row for each id among the selected samples.
unfoldable pub group_rows : {V : Type 0} → (ℕ → V) → List PingSample → List (ℕ × V)
unfolding distinct
group_rows aggregate samples =
    map (λ k. (k, aggregate k)) (distinct (map (λ s. s.listing_id) samples))

-- `avg_by_listing`
unfoldable pub avg_by_listing : ℕ → List PingSample → List (ℕ × Option ℤ)
unfolding select group_rows avg_of
avg_by_listing cutoff samples =
    group_rows (λ k. avg_of cutoff k samples) (select (λ s. in_window cutoff s && s.ok) samples)

-- `stab_by_listing`
unfoldable pub stab_by_listing : ℕ → List PingSample → List (ℕ × Option ℕ)
unfolding select group_rows stability_of
stab_by_listing cutoff samples =
    group_rows (λ k. stability_of cutoff k samples) (select (in_window cutoff) samples)

-- `.get(listing_id)`
unfoldable pub get_value : {V : Type 0} → ℕ → List (ℕ × Option V) → Option V
get_value k [] = none
get_value k ((j, v) ∷ rest) = if k == j then v else get_value k rest

-- `set(avg_by_listing) | set(stab_by_listing)`
unfoldable pub listing_ids : List (ℕ × Option ℤ) → List (ℕ × Option ℕ) → List ℕ
unfolding distinct
listing_ids avgs stabs = distinct (map (λ r. r.0) avgs ++ map (λ r. r.0) stabs)

module _ (avgs : List (ℕ × Option ℤ)) (stabs : List (ℕ × Option ℕ)) where
  abbrev pub refresh : ℕ → Listing → Listing
  refresh k l = record l { avg_ping_ms = get_value k avgs; stability_pct = get_value k stabs }

  unfoldable pub refresh_each : List ℕ → List Listing → List Listing
  unfolding update_rows get_value
  refresh_each [] ls = ls
  refresh_each (k ∷ ks) ls = refresh_each ks (update_rows (λ l. l.id == k) (refresh k) ls)

-- `aggregate_pings_once`
unfoldable pub aggregate_pings_once : ℕ → ℕ → Db → Db
unfolding avg_by_listing stab_by_listing listing_ids refresh_each
aggregate_pings_once cutoff_1h cutoff_stability db =
    let avgs = avg_by_listing cutoff_1h db.ping_samples in
    let stabs = stab_by_listing cutoff_stability db.ping_samples in
    record db { listings = refresh_each avgs stabs (listing_ids avgs stabs) db.listings }
