-- ===== src/Billing/Metering.antt =====
-- What the meter counts in one cycle, and what two polls at once do to it.
use abr_out.Prelude.{ℕ, ◌+◌, some, Bool, true, ◌≡◌, refl, arith, leb, if◌then◌else◌}
use abr_out.Prelude.Rows.{select, total_rows, first_row}
use abr_out.Prelude.Keyed.{first_row-update}
use abr_out.Models.{Db, Config, Listing}
use abr_out.Outside.{ClientTraffic}
use abr_out.Quota.{used_bytes}
use abr_out.Billing.{
  Cycle, delta_since, next_anchor, client_delta, set_snapshot_anchor, min_billable_bytes, has_email,
  config_row, record_config, bill_config, bill_client,
}

-- The bytes of a delta that are billed: less than half a MiB is forgiven.
abbrev pub billable : ℕ → ℕ
billable delta = if leb min_billable_bytes delta then delta else 0

module _ (share : ℕ → ℕ → ℕ → ℕ) (c : Cycle) (l : Listing) where
  -- The client's reading adds its billable delta to the usage of its config, and moves the anchor
  -- of that config to zero after a reset and to the reading otherwise. The client is known: an
  -- active config of the listing has its address.
  pub bill_client-meters :
      (ct : ClientTraffic) (db : Db) (had : Bool) {cfg : Config}
      → first_row (has_email l ct.email) db.configs ≡ some cfg
      → let (db', _) = bill_client share c l ct (db, had) in
        (used_bytes db' cfg.id ≡ used_bytes db cfg.id + billable (client_delta cfg ct))
        × (first_row (has_email l ct.email) db'.configs
            ≡ some (set_snapshot_anchor (next_anchor c.reset_succeeded (ct.up + ct.down)) cfg))
  unfolding bill_client bill_config record_config config_row used_bytes select total_rows
  bill_client-meters ct db had {cfg} h = (
    rw (h, bill_client) (ground arith),
    rw (h, bill_client)
        (ground (
          arith,
          first_row-update (λ x. x.id) (has_email l ct.email)
              (set_snapshot_anchor (next_anchor c.reset_succeeded (ct.up + ct.down))) cfg db.configs
              (λ x. refl) h,
        )),
  )

-- Two polls that both read a client before either resets it, each under its own cycle: the second
-- bills the whole reading again, although the first has billed it. The client is known, and the
-- first cycle's reset succeeded.
pub double_poll-charges_twice :
    (share : ℕ → ℕ → ℕ → ℕ) (c c' : Cycle) (l : Listing) (ct : ClientTraffic) (db : Db) (had : Bool)
    {cfg : Config}
    → first_row (has_email l ct.email) db.configs ≡ some cfg
    → c.reset_succeeded ≡ true
    → used_bytes (bill_client share c' l ct (bill_client share c l ct (db, had))).0 cfg.id
      ≡ used_bytes db cfg.id + billable (client_delta cfg ct) + billable (ct.up + ct.down)
unfolding delta_since
double_poll-charges_twice share c c' l ct db had {cfg} known reset =
    let s = bill_client share c l ct (db, had) in
    let first = bill_client-meters share c l ct db had known in
    let second = bill_client-meters share c' l ct s.0 s.1 first.1 in
    ground (arith, first.0, second.0)
