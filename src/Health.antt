-- ===== src/Health.antt =====
-- app/worker/jobs/listing_quality_gate.py: the test of new listings, the demotion of silent ones
-- and the recovery of broken ones. A notice that was queued is the row as the pass read it. Log
-- lines are left out.
pub mod Passes
pub mod Gate
pub mod Promises
use abr_out.Prelude.{
  ℕ, suc, List, [], ◌∷◌, Option, none, some, Bool, true, false, not, ◌&&◌, ◌||◌, ◌==◌, ltb, leb,
  get_or, if◌then◌else◌,
}
use abr_out.Prelude.Rows.{select, update_rows, exists_row}
use abr_out.Models.{
  Db, Listing, ListingStatus, PingSample, listing_pending, listing_active, listing_broken,
}
use abr_out.Outside.{World, Effect, Message, emit}
use abr_out.Notifications.{notify_listing_buyers}

-- `_BROKEN_NOTIFY_CAP`
abbrev pub broken_notify_cap : ℕ
broken_notify_cap = 3

abbrev pub write_listing : (Listing → Listing) → ℕ → Db → Db
write_listing f id db = record db { listings = update_rows (λ x. x.id == id) f db.listings }

-- `_pending_pass`. An ok sample since the listing was created.
unfoldable pub had_ok : List PingSample → Listing → Bool
unfolding exists_row
had_ok samples l =
    exists_row (λ s. s.listing_id == l.id && s.ok && leb l.created_at s.sampled_at) samples

abbrev pub is_due : ℕ → Option ℕ → Bool
is_due now none = true
is_due now (some deadline) = leb deadline now

abbrev pub promote : Listing → Listing
promote l = record l {
  status = ListingStatus.active;
  pending_until_at = none;
  broken_notify_count = 0;
}

abbrev pub fail_test : ℕ → Listing → Listing
fail_test now l = record l {
  status = ListingStatus.broken;
  broken_since = some now;
  pending_until_at = none;
}

abbrev pub is_failed : ℕ → List PingSample → Listing → Bool
is_failed now samples l = not (had_ok samples l) && is_due now l.pending_until_at

unfoldable pub test_row : ℕ → Listing → Db → Db
unfolding had_ok update_rows
test_row now l db =
    if had_ok db.ping_samples l
    then write_listing promote l.id db
    else if is_due now l.pending_until_at
    then write_listing (fail_test now) l.id db
    else db

unfoldable pub pending_pass : ℕ → List Listing → Db → Db
unfolding test_row
pending_pass now [] db = db
pending_pass now (l ∷ ls) db = pending_pass now ls (test_row now l db)

-- Pass 2. Probed since the cutoff, without an ok answer since.
abbrev pub reached_since : ℕ → Option ℕ → Bool
reached_since cutoff none = false
reached_since cutoff (some t) = not (ltb t cutoff)

abbrev pub is_silent : ℕ → Listing → Bool
is_silent cutoff l =
    not (reached_since cutoff l.last_ok_ping_at) && reached_since cutoff l.last_probed_at

abbrev pub demote : ℕ → Listing → Listing
demote now l = record l {
  status = ListingStatus.broken;
  broken_since = some now;
  recovered_at = none;
}

unfoldable pub demote_row : ℕ → ℕ → Listing → Db → Db
unfolding update_rows
demote_row now cutoff l db = if is_silent cutoff l then write_listing (demote now) l.id db else db

unfoldable pub demote_pass : ℕ → ℕ → List Listing → Db → Db
unfolding demote_row
demote_pass now cutoff [] db = db
demote_pass now cutoff (l ∷ ls) db = demote_pass now cutoff ls (demote_row now cutoff l db)

-- Pass 3. The latest sample after a time, the newer row where two have the same time.
abbrev later : PingSample → Option PingSample → PingSample
later s none = s
later s (some t) = if ltb s.sampled_at t.sampled_at then t else s

unfoldable pub latest_sample : ℕ → ℕ → List PingSample → Option PingSample
latest_sample listing_id since [] = none
latest_sample listing_id since (s ∷ ss) =
    let rest = latest_sample listing_id since ss in
    if s.listing_id == listing_id && ltb since s.sampled_at then some (later s rest) else rest

abbrev pub was_ok : Option PingSample → Bool
was_ok none = false
was_ok (some s) = s.ok

unfoldable pub has_recovered : List PingSample → Listing → Bool
unfolding latest_sample
has_recovered samples l = was_ok (latest_sample l.id (get_or l.broken_since l.created_at) samples)

abbrev pub recover : ℕ → Listing → Listing
recover now l = record l {
  status = ListingStatus.active;
  broken_since = none;
  recovered_at = some now;
  broken_notify_count = 0;
}

unfoldable pub recover_row : ℕ → Listing → Db → Db
unfolding has_recovered update_rows
recover_row now l db =
    if has_recovered db.ping_samples l then write_listing (recover now) l.id db else db

unfoldable pub recover_pass : ℕ → List Listing → Db → Db
unfolding recover_row
recover_pass now [] db = db
recover_pass now (l ∷ ls) db = recover_pass now ls (recover_row now l db)

-- The notices that follow the commit.
abbrev pub count_notice : Listing → Listing
count_notice l = record l { broken_notify_count = suc l.broken_notify_count }

unfoldable pub notify_outage : Message → Listing → World → World
unfolding notify_listing_buyers update_rows
notify_outage text l w =
    let w' = emit (Effect.message l.seller_user_id text) w in
    if ltb l.broken_notify_count broken_notify_cap
    then (let text' = Message.buyers_listing_broken l.id in
        let sent = notify_listing_buyers l.id text' false false w' in
        record sent { db = write_listing count_notice l.id sent.db })
    else w'

unfoldable pub notify_failed : List Listing → World → World
unfolding notify_outage
notify_failed [] w = w
notify_failed (l ∷ ls) w =
    notify_failed ls (notify_outage (Message.listing_test_failed l.id l.title) l w)

unfoldable pub notify_demoted : List Listing → World → World
unfolding notify_outage
notify_demoted [] w = w
notify_demoted (l ∷ ls) w = notify_demoted ls (notify_outage (Message.listing_broken l.id) l w)

unfoldable pub notify_recovered : List Listing → World → World
unfolding notify_listing_buyers
notify_recovered [] w = w
notify_recovered (l ∷ ls) w =
    notify_recovered ls
      (notify_listing_buyers l.id (Message.buyers_listing_recovered l.id) false false w)

unfoldable pub announce_promoted : List Listing → World → World
announce_promoted [] w = w
announce_promoted (l ∷ ls) w =
    announce_promoted ls (emit (Effect.announce l.id l.price_per_gb_usd) w)

-- `listing_quality_gate_once`: three passes, each over the rows that it reads when it starts.
unfoldable pub listing_quality_gate_once : ℕ → ℕ → World → World
unfolding select pending_pass demote_pass recover_pass announce_promoted notify_failed
    notify_demoted notify_recovered
listing_quality_gate_once now cutoff w =
    let samples = w.db.ping_samples in
    let pending_rows = select (λ l. listing_pending l.status) w.db.listings in
    let db₁ = pending_pass now pending_rows w.db in
    let active_rows = select (λ l. listing_active l.status) db₁.listings in
    let db₂ = demote_pass now cutoff active_rows db₁ in
    let broken_rows = select (λ l. listing_broken l.status) db₂.listings in
    let db₃ = recover_pass now broken_rows db₂ in
    notify_recovered (select (has_recovered samples) broken_rows) (
      notify_demoted (select (is_silent cutoff) active_rows) (
        notify_failed (select (is_failed now samples) pending_rows)
          (announce_promoted (select (had_ok samples) pending_rows) (record w { db = db₃ }))))
