-- ===== src/Quota.antt =====
-- app/worker/jobs/enforce_quota.py: configs whose cumulative usage reached `total_gb_limit` are
-- disabled. An exception of the panel is caught where it rises, so its answer changes nothing here.
-- Log lines are left out.
pub mod Enforced
use abr_out.Prelude.{
  ℕ, ◌*◌, ◌^◌, List, [], ◌∷◌, Option, none, some, Bool, true, false, not, ◌&&◌, ◌==◌, ltb, is_some,
  if◌then◌else◌,
}
use abr_out.Prelude.Int.{ℤ, pos, negsuc}
use abr_out.Prelude.Rows.{select, update_rows, first_row, total_rows}
use abr_out.Prelude.Rounding.{round_half_even}
use abr_out.Join.{join_listing}
use abr_out.Models.{Db, Config, ConfigStatus, Listing, ConfigUsage, config_active, listing_deleted}
use abr_out.Outside.{World, Effect, Message, emit}

abbrev pub bytes_per_gb : ℕ
bytes_per_gb = 1024 ^ 3

-- `int((Decimal(limit_gb) * _BYTES_PER_GB).to_integral_value())`, from a limit in 10^-4 GB.
unfoldable pub limit_bytes : ℕ → ℕ
limit_bytes limit_gb = round_half_even (limit_gb * bytes_per_gb) (10 ^ 4)

-- The cumulative usage of a config.
unfoldable pub used_bytes : Db → ℕ → ℕ
unfolding select total_rows
used_bytes db cid =
    total_rows (λ u. u.delta_total_bytes) (select (λ u. u.config_id == cid) db.config_usage)

-- A limit of zero or less is no limit.
unfoldable pub over_limit : Option ℤ → ℕ → Bool
unfolding limit_bytes
over_limit none used = false
over_limit (some (negsuc n)) used = false
over_limit (some (pos n)) used = if n == 0 then false else not (ltb used (limit_bytes n))

abbrev pub capped : Config → Bool
capped c = config_active c.status && is_some c.total_gb_limit

-- The panel part of `_set_panel_enabled(…, enable=False)` behind its guard.
unfoldable pub disable_on_panel : Config → Listing → World → World
disable_on_panel c l w = elim l.panel_inbound_id [
  | none ↦ w
  | some inbound ↦
      if listing_deleted l.status
      then w
      else emit (Effect.set_enabled inbound c.panel_client_uuid c.panel_client_email false) w
]

abbrev pub set_disabled : Config → Config
set_disabled c = record c { status = ConfigStatus.disabled }

-- One turn of the loop over the rows; the usage is that read before the loop.
unfoldable pub enforce_row : Db → Config × Listing → World × List Config → World × List Config
unfolding disable_on_panel over_limit update_rows
enforce_row read (c, l) (w, notifications) =
    if over_limit c.total_gb_limit (used_bytes read c.id)
    then (let w' = disable_on_panel c l w in
        let configs = update_rows (λ x. x.id == c.id) set_disabled w'.db.configs in
        let db' = record (w'.db) { configs = configs } in
        (record w' { db = db' }, c ∷ notifications))
    else (w, notifications)

unfoldable pub enforce_rows :
    Db → List (Config × Listing) → World × List Config → World × List Config
unfolding enforce_row
enforce_rows read [] s = s
enforce_rows read (r ∷ rs) s = enforce_rows read rs (enforce_row read r s)

unfoldable pub notify_quota : List Config → World → World
notify_quota [] w = w
notify_quota (c ∷ cs) w =
    emit (Effect.message c.buyer_user_id (Message.quota_reached c.name)) (notify_quota cs w)

-- Nothing is restarted or sent where no config was disabled.
unfoldable pub announce_quotas : World → List Config → World
unfolding notify_quota
announce_quotas w [] = w
announce_quotas w (c ∷ cs) = notify_quota (c ∷ cs) (emit Effect.restart_xray w)

-- `enforce_quotas_once`
unfoldable pub enforce_quotas_once : World → World
unfolding join_listing enforce_rows announce_quotas
enforce_quotas_once w =
    let rows = join_listing capped w.db.listings w.db.configs in
    let (w', notifications) = enforce_rows w.db rows (w, []) in announce_quotas w' notifications
