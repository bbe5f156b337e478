-- ===== src/Poll.antt =====
-- The poll cycle of app/worker/jobs/poll_traffic.py: read, reset, bill, for each listing in turn,
-- and the reset of all totals at the end. A failed login ends the run before the first listing. What other processes commit between the read of a panel
-- and the locked read of its listing is the parameter `meanwhile`; `db_raises` tells which listings
-- meet a failure of the database itself. Log lines and the counters of the summary are left out.
pub mod Invariant
use abr_out.Prelude.{
  ℕ, ◌+◌, List, [], ◌∷◌, Option, none, some, Bool, true, false, not, ◌&&◌, ◌==◌, is_some,
  if◌then◌else◌,
}
use abr_out.Prelude.Rows.{sort_ids, select, update_rows, first_row, total_rows, contains}
use abr_out.Models.{Db, Listing, Fraction, listing_deleted}
use abr_out.Outside.{World, Panel, Reply, InboundSnapshot, ClientTraffic, Effect, emit}
use abr_out.Wallet.{commit}
use abr_out.Quota.{enforce_quotas_once}
use abr_out.Billing.{Cycle, bill_inbound}
use abr_out.Quota
use mathlib.Core.List.{map}

pub data PollError : Type 0 where
  unprovisioned read_failed reset_failed vanished bill_failed : PollError

-- The `stats` of one listing.
pub record Stats : Type 0 where
  pub listing_id : ℕ
  pub ok : Bool
  pub had_traffic : Bool
  pub reset_attempted : Bool
  pub reset_succeeded : Bool
  pub error : Option PollError

pub record PollSettings : Type 0 where
  pub commission_pct : Fraction
  pub traffic_reset_enabled : Bool

abbrev pub listing_with_id : ℕ → Db → Option Listing
listing_with_id lid db = first_row (λ l. l.id == lid) db.listings

abbrev pub no_stats : ℕ → Stats
no_stats lid = record {
  listing_id = lid;
  ok = false;
  had_traffic = false;
  reset_attempted = false;
  reset_succeeded = false;
  error = none;
}

abbrev pub failed_read : ℕ → PollError → Stats
failed_read lid e = record {
  listing_id = lid;
  ok = false;
  had_traffic = false;
  reset_attempted = false;
  reset_succeeded = false;
  error = some e;
}

abbrev pub has_clients : List ClientTraffic → Bool
has_clients [] = false
has_clients (c ∷ cs) = true

abbrev pub zero_anchors : Listing → Listing
zero_anchors l = record l { last_outbound_up_bytes = 0; last_outbound_down_bytes = 0 }

-- `_refresh_listing_sales_totals`, in 10^-10 GB: the column's own rounding is left out.
unfoldable pub sold_gb : Db → ℕ → ℕ
unfolding select total_rows
sold_gb db lid = total_rows (λ u. u.gb) (select (λ u. u.listing_id == lid) db.outbound_usage)

unfoldable pub refresh_listing_sales_totals : List ℕ → Db → Db
unfolding update_rows contains sold_gb
refresh_listing_sales_totals ids db =
    let refresh = λ (l : Listing). record l { total_gb_sold = sold_gb db l.id } in
    record db { listings = update_rows (λ l. contains l.id ids) refresh db.listings }

abbrev pub provisioned : Listing → Bool
provisioned l = not (listing_deleted l.status) && is_some l.panel_inbound_id

-- One run of the job: what the outside answers, the settings, and the run's id and time.
pub record Run : Type 0 where
  pub share : ℕ → ℕ → ℕ → ℕ
  pub panel : Panel
  pub meanwhile : ℕ → Db → Db
  pub db_raises : ℕ → Bool
  pub settings : PollSettings
  pub cycle_id : ℕ
  pub sampled_at : ℕ

module _ (run : Run) where
  open run use {share, panel, meanwhile, db_raises, settings, cycle_id, sampled_at}

  abbrev pub cycle_of : Bool → Bool → Cycle
  cycle_of attempted succeeded = record {
    cycle_id = cycle_id;
    sampled_at = sampled_at;
    commission_pct = settings.commission_pct;
    reset_attempted = attempted;
    reset_succeeded = succeeded;
  }

  -- Step 3, the transaction: bill the locked row and commit, or roll back.
  unfoldable pub bill_at_leisure : ℕ → InboundSnapshot → Stats → World → World × Stats
  bill_at_leisure lid snap stats w =
      if db_raises lid
      then (w, record stats { error = some PollError.bill_failed })
      else elim (listing_with_id lid w.db) [
        | none ↦ (w, record stats { error = some PollError.vanished })
        | some l ↦
            let cycle = cycle_of stats.reset_attempted stats.reset_succeeded in
            let (db', had) = bill_inbound share cycle l snap w.db in
            elim (commit db') [
              | none ↦ (w, record stats { ok = true })
              | some db'' ↦ (record w { db = db'' }, record stats { ok = true; had_traffic = had })
            ]
      ]

  -- Steps 2 and 3: the reset of the client counters comes before any work on the database.
  unfoldable pub reset_and_bill : ℕ → ℕ → InboundSnapshot → World → World × Stats
  reset_and_bill lid inbound snap w =
      let attempted = settings.traffic_reset_enabled && has_clients snap.clients in
      let succeeded = attempted && panel.reset_inbound_clients_traffic inbound in
      let error = if attempted && not succeeded then some PollError.reset_failed else none in
      let stats = record (no_stats lid) {
        reset_attempted = attempted;
        reset_succeeded = succeeded;
        error = error;
      } in
      let w' = if attempted then emit (Effect.reset_clients inbound) w else w in
      bill_at_leisure lid snap stats (record w' { db = meanwhile lid w'.db })

  -- `_process_listing`
  unfoldable pub process_listing : ℕ → World → World × Stats
  process_listing lid w = elim (listing_with_id lid w.db) [
    | none ↦ (w, failed_read lid PollError.unprovisioned)
    | some l ↦ elim l.panel_inbound_id [
      | none ↦ (w, failed_read lid PollError.unprovisioned)
      | some inbound ↦ elim (panel.get_inbound_snapshot inbound) [
        | none ↦ (w, failed_read lid PollError.read_failed)
        | some snap ↦ reset_and_bill lid inbound snap w
      ]
    ]
  ]

  -- The loop over the listings, with the ids of those that were processed.
  unfoldable pub process_listings : List ℕ → World → World × List ℕ
  process_listings [] w = (w, [])
  process_listings (lid ∷ lids) w =
      let (w', stats) = process_listing lid w in
      let (w'', processed) = process_listings lids w' in
      (w'', if stats.ok then lid ∷ processed else processed)

  -- The end of the cycle, for the listings that were processed.
  unfoldable pub finish_cycle : List ℕ → World → World
  finish_cycle [] w = w
  finish_cycle (i ∷ is) w =
      let ids = i ∷ is in
      let w' = if settings.traffic_reset_enabled then emit Effect.reset_all w else w in
      let outbound_reset_ok = settings.traffic_reset_enabled && panel.reset_all_inbounds_stat in
      let zeroed = update_rows (λ l. contains l.id ids) zero_anchors w'.db.listings in
      let db' = if outbound_reset_ok then record (w'.db) { listings = zeroed } else w'.db in
      record w' { db = refresh_listing_sales_totals ids db' }

  -- A login that fails raises out of the job: no listing is processed, and no quota enforced.
  abbrev pub when_logged_in : Reply → World → World → World
  when_logged_in Reply.done w' w = w'
  when_logged_in Reply.refused w' w = w
  when_logged_in Reply.unreachable w' w = w

  -- The cycle over the selected listings, in one session with the panel; without one it ends at once.
  unfoldable pub run_cycle : List ℕ → World → World
  run_cycle [] w = w
  run_cycle (i ∷ is) w =
      let (w', processed) = process_listings (i ∷ is) w in
      when_logged_in panel.login (enforce_quotas_once (finish_cycle processed w')) w

  -- `poll_traffic_once`
  unfoldable pub poll_traffic_once : World → World
  poll_traffic_once w = run_cycle (sort_ids (map (λ l. l.id) (select provisioned w.db.listings))) w
