-- ===== src/Prober.antt =====
-- app/api/routes/prober.py: what the prober in Iran is told to test, and the samples that it sends
-- back. `datetime.now` and the database's `now()` are arguments. A ping is divided by 1.3 and rounded;
-- no whole number lies half-way, so the nearest integer is meant. Log lines are left out.
pub mod Bookkeeping
pub mod Advances
pub mod Orphans
use abr_out.Prelude.{
  ℕ, suc, ◌*◌, List, [], ◌∷◌, Option, none, some, Bool, true, false, ◌&&◌, ◌||◌, ◌==◌, ltb, get_or,
  map, if◌then◌else◌,
}
use mathlib.Core.Option
use abr_out.Prelude.Int.{ℤ, pos, negsuc, neg}
use abr_out.Prelude.Text.{Text}
use abr_out.Prelude.Rows.{select, update_rows, contains}
use abr_out.Prelude.Rounding.{round_half_even}
use abr_out.Models.{Db, Listing, PingSample, listing_pending, listing_active, listing_broken}

-- `ListingTarget`, without its constant hint.
pub record ListingTarget : Type 0 where
  pub listing_id : ℕ
  pub iran_host : Text
  pub port : ℕ
  pub panel_inbound_id : Option ℕ
  pub probe_client_uuid : Option ℕ
  pub probe_client_email : Option Text

-- `PingSampleIn`
pub record PingSampleIn : Type 0 where
  pub listing_id : ℕ
  pub rtt_ms : Option ℤ
  pub ok : Bool
  pub sampled_at : Option ℕ

abbrev older_than : ℕ → Option ℕ → Bool
older_than cutoff none = true
older_than cutoff (some t) = ltb t cutoff

abbrev pub is_target : ℕ → Listing → Bool
is_target broken_cutoff l =
    listing_pending l.status
    || listing_active l.status
    || (listing_broken l.status && older_than broken_cutoff l.last_probed_at)

abbrev target_of : Listing → ListingTarget
target_of r = record {
  listing_id = r.id;
  iran_host = r.iran_host;
  port = r.port;
  panel_inbound_id = r.panel_inbound_id;
  probe_client_uuid = r.probe_client_uuid;
  probe_client_email = r.probe_client_email;
}

-- `list_targets`
unfoldable pub list_targets : ℕ → Db → List ListingTarget
unfolding select
list_targets broken_cutoff db = map target_of (select (is_target broken_cutoff) db.listings)

-- `int(round(s.rtt_ms / 1.3))`
unfoldable pub scaled_rtt : ℤ → ℤ
unfolding round_half_even neg
scaled_rtt (pos n) = pos (round_half_even (n * 10) 13)
scaled_rtt (negsuc n) = neg (pos (round_half_even (suc n * 10) 13))

-- The row of a sample; the database stamps a sample that has no time.
abbrev pub sample_row : ℕ → PingSampleIn → PingSample
sample_row db_now s = record {
  listing_id = s.listing_id;
  rtt_ms = Option.map scaled_rtt s.rtt_ms;
  ok = s.ok;
  sampled_at = get_or s.sampled_at db_now;
}

-- `prev = d.get(key); if prev is None or ts > prev: d[key] = ts`
unfoldable pub note_latest : ℕ → ℕ → List (ℕ × ℕ) → List (ℕ × ℕ)
note_latest key ts [] = (key, ts) ∷ []
note_latest key ts ((k, prev) ∷ d) =
    let rest = note_latest key ts d in
    if k == key then (k, if ltb prev ts then ts else prev) ∷ d else (k, prev) ∷ rest

-- The loop over the samples: the rows, newest first, `latest_probed` and `latest_ok`.
unfoldable pub collect :
    ℕ
    → ℕ
    → List PingSampleIn
    → List PingSample × List (ℕ × ℕ) × List (ℕ × ℕ)
    → List PingSample × List (ℕ × ℕ) × List (ℕ × ℕ)
unfolding note_latest
collect now db_now [] s = s
collect now db_now (s ∷ ss) (rows, latest_probed, latest_ok) =
    let sampled_at = get_or s.sampled_at now in
    collect now db_now ss (
      sample_row db_now s ∷ rows,
      note_latest s.listing_id sampled_at latest_probed,
      if s.ok then note_latest s.listing_id sampled_at latest_ok else latest_ok,
    )

-- `greatest(coalesce(column, ts), ts)`
abbrev pub greatest : Option ℕ → ℕ → Option ℕ
greatest none ts = some ts
greatest (some t) ts = some (if ltb t ts then ts else t)

abbrev pub probed_at : ℕ → Listing → Listing
probed_at ts l = record l { last_probed_at = greatest l.last_probed_at ts }

abbrev pub ok_at : ℕ → Listing → Listing
ok_at ts l = record l { last_ok_ping_at = greatest l.last_ok_ping_at ts }

-- `for listing_id, ts in d.items(): UPDATE listings … WHERE id = listing_id`
unfoldable pub write_latest : (ℕ → Listing → Listing) → List (ℕ × ℕ) → List Listing → List Listing
unfolding update_rows
write_latest set [] ls = ls
write_latest set ((k, ts) ∷ d) ls = write_latest set d (update_rows (λ l. l.id == k) (set ts) ls)

unfoldable pub known_samples : List Listing → List PingSampleIn → List PingSampleIn
unfolding select contains
known_samples ls samples =
    let candidate_ids = map (λ s. s.listing_id) samples in
    let known_ids = map (λ l. l.id) (select (λ l. contains l.id candidate_ids) ls) in
    select (λ s. contains s.listing_id known_ids) samples

unfoldable pub store_samples : ℕ → ℕ → List PingSampleIn → Db → Db
unfolding collect write_latest
store_samples now db_now [] db = db
store_samples now db_now (s ∷ ss) db =
    let (rows, latest_probed, latest_ok) = collect now db_now (s ∷ ss) (db.ping_samples, [], []) in
    record db {
      ping_samples = rows;
      listings = write_latest ok_at latest_ok (write_latest probed_at latest_probed db.listings);
    }

-- `post_samples`
unfoldable pub post_samples : ℕ → ℕ → List PingSampleIn → Db → Db
unfolding known_samples store_samples
post_samples now db_now samples db = store_samples now db_now (known_samples db.listings samples) db
