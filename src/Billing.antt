-- ===== src/Billing.antt =====
-- The prices and `_bill_inbound` of app/worker/jobs/poll_traffic.py. `Decimal` arithmetic is exact
-- here: below 10^10 GB in one reading the 28 digits of the default context never round an
-- intermediate value in a way that the last `quantize` could show.
pub mod Pricing
pub mod Metering
pub mod Turns
pub mod Books
pub mod Parties
use abr_out.Prelude.{
  ℕ, ◌+◌, ◌-◌, ◌*◌, ◌^◌, List, [], ◌∷◌, Option, none, some, Bool, true, false, ◌&&◌, ◌||◌, ◌==◌,
  ltb, leb, if◌then◌else◌,
}
use abr_out.Prelude.Text.{Text, same_text}
use abr_out.Prelude.Int.{ℤ, pos, neg, sub_ℕ}
use abr_out.Prelude.Rows.{update_rows, first_row}
use abr_out.Prelude.Rounding.{round_half_even}
use abr_out.Quota.{bytes_per_gb}
use abr_out.Models.{
  Db, Listing, Config, OutboundUsage, ConfigUsage, WalletTransaction, TxnType, Currency, Fraction,
  IdempotencyKey, Ref, Note, config_active,
}
use abr_out.Outside.{ClientTraffic, InboundSnapshot}

-- `_MIN_BILLABLE_BYTES`, 0.5 MiB.
abbrev pub min_billable_bytes : ℕ
min_billable_bytes = 512 * 1024

-- `_q_gb(Decimal(delta) / _BYTES_PER_GB)`, in 10^-10 GB.
unfoldable pub gb_of : ℕ → ℕ
gb_of delta = round_half_even (delta * 10 ^ 10) bytes_per_gb

-- `_q_usd(gb * price)`: 10^-10 GB at 10^-4 dollars, in 10^-8 dollars.
unfoldable pub seller_credit : ℕ → ℕ → ℕ
seller_credit gb price = round_half_even (gb * price) (10 ^ 6)

-- `_q_usd(gb * price * (Decimal("1") + commission_pct))`
unfoldable pub buyer_debit : ℕ → ℕ → Fraction → ℕ
buyer_debit gb price commission =
    round_half_even (gb * price * (commission.den + commission.num)) (10 ^ 6 * commission.den)

-- The bytes since the anchor; a counter below its anchor was reset on the panel.
unfoldable pub delta_since : ℕ → ℕ → ℕ
delta_since current previous = if ltb current previous then current else current - previous

-- What a cycle hands to `_bill_inbound`.
pub record Cycle : Type 0 where
  pub cycle_id : ℕ
  pub sampled_at : ℕ
  pub commission_pct : Fraction
  pub reset_attempted : Bool
  pub reset_succeeded : Bool

abbrev pub add_txn : WalletTransaction → Db → Db
add_txn t db = record db { wallet_transactions = t ∷ db.wallet_transactions }

unfoldable pub credit_txn : Cycle → Listing → ℕ → WalletTransaction
unfolding gb_of seller_credit
credit_txn c l delta = record {
  user_id = l.seller_user_id;
  amount = pos (seller_credit (gb_of delta) l.price_per_gb_usd);
  currency = Currency.usd;
  type = TxnType.usage_credit;
  ref = some (Ref.listing l.id);
  note = some (Note.outbound delta l.price_per_gb_usd);
  idempotency_key = some (IdempotencyKey.poll_outbound c.cycle_id l.id);
}

unfoldable pub debit_txn : Cycle → Listing → Config → ℕ → WalletTransaction
unfolding gb_of buyer_debit
debit_txn c l cfg delta = record {
  user_id = cfg.buyer_user_id;
  amount = neg (pos (buyer_debit (gb_of delta) l.price_per_gb_usd c.commission_pct));
  currency = Currency.usd;
  type = TxnType.usage_debit;
  ref = some (Ref.config cfg.id);
  note = some (Note.usage l.id l.price_per_gb_usd c.commission_pct);
  idempotency_key = some (IdempotencyKey.poll_debit c.cycle_id cfg.id);
}

abbrev pub set_outbound_anchor : InboundSnapshot → Listing → Listing
set_outbound_anchor snap l = record l {
  last_outbound_up_bytes = snap.up;
  last_outbound_down_bytes = snap.down;
}

abbrev pub outbound_delta : Listing → InboundSnapshot → ℕ
outbound_delta l snap =
    delta_since (snap.up + snap.down) (l.last_outbound_up_bytes + l.last_outbound_down_bytes)

abbrev pub set_snapshot_anchor : ℕ → Config → Config
set_snapshot_anchor n cfg = record cfg { last_snapshot_bytes = n }

abbrev pub next_anchor : Bool → ℕ → ℕ
next_anchor reset_succeeded current = if reset_succeeded then 0 else current

abbrev pub client_delta : Config → ClientTraffic → ℕ
client_delta cfg ct = delta_since (ct.up + ct.down) cfg.last_snapshot_bytes

-- `by_email`: the active config of the listing with that address. The panel keeps addresses
-- distinct; of two such rows the query, which has no order, would leave open which one stays.
abbrev pub has_email : Listing → Text → Config → Bool
has_email l email cfg =
    cfg.listing_id == l.id && config_active cfg.status && same_text cfg.panel_client_email email

-- `share d u t` is `int(round(d * (u / t)))`, computed by Python in floating point.
module _ (share : ℕ → ℕ → ℕ → ℕ) where
  -- The audit split of a delta into up and down.
  unfoldable pub split : ℕ → ℕ → ℕ → ℕ × ℤ
  split delta up total =
      if ltb 0 total then (share delta up total, sub_ℕ delta (share delta up total)) else (0, pos 0)

  unfoldable pub outbound_row : Cycle → Listing → InboundSnapshot → ℕ → OutboundUsage
  unfolding gb_of seller_credit split
  outbound_row c l snap delta = record {
    listing_id = l.id;
    seller_user_id = l.seller_user_id;
    panel_inbound_id = l.panel_inbound_id;
    cycle_id = c.cycle_id;
    delta_up_bytes = (split delta snap.up (snap.up + snap.down)).0;
    delta_down_bytes = (split delta snap.up (snap.up + snap.down)).1;
    delta_total_bytes = delta;
    gb = gb_of delta;
    seller_credit_usd = seller_credit (gb_of delta) l.price_per_gb_usd;
    panel_total_up_bytes = snap.up;
    panel_total_down_bytes = snap.down;
    reset_attempted = c.reset_attempted;
    reset_succeeded = c.reset_succeeded;
    sampled_at = c.sampled_at;
  }

  unfoldable pub config_row : Cycle → Listing → ClientTraffic → Config → ℕ → ConfigUsage
  unfolding gb_of buyer_debit split
  config_row c l ct cfg delta = record {
    config_id = cfg.id;
    listing_id = l.id;
    buyer_user_id = cfg.buyer_user_id;
    seller_user_id = l.seller_user_id;
    cycle_id = c.cycle_id;
    delta_up_bytes = (split delta ct.up (ct.up + ct.down)).0;
    delta_down_bytes = (split delta ct.up (ct.up + ct.down)).1;
    delta_total_bytes = delta;
    gb = gb_of delta;
    buyer_debit_usd = buyer_debit (gb_of delta) l.price_per_gb_usd c.commission_pct;
    seller_credit_usd = 0;
    panel_email = ct.email;
    reset_attempted = c.reset_attempted;
    reset_succeeded = c.reset_succeeded;
    sampled_at = c.sampled_at;
  }

  -- The seller's part: the usage row, the credit and the anchors of the listing.
  unfoldable pub record_outbound : Cycle → Listing → InboundSnapshot → ℕ → Db → Db
  unfolding outbound_row credit_txn
  record_outbound c l snap delta db =
      let db' = record db { outbound_usage = outbound_row c l snap delta ∷ db.outbound_usage } in
      if ltb 0 (seller_credit (gb_of delta) l.price_per_gb_usd)
      then add_txn (credit_txn c l delta) db'
      else db'

  unfoldable pub bill_seller : Cycle → Listing → InboundSnapshot → Db → Db × Bool
  unfolding delta_since record_outbound update_rows
  bill_seller c l snap db =
      let billed = leb min_billable_bytes (outbound_delta l snap) in
      let db' = if billed then record_outbound c l snap (outbound_delta l snap) db else db in
      let listings = update_rows (λ x. x.id == l.id) (set_outbound_anchor snap) db'.listings in
      (record db' { listings = listings }, billed)

  unfoldable pub record_config : Cycle → Listing → ClientTraffic → Config → ℕ → Db → Db
  unfolding config_row debit_txn
  record_config c l ct cfg delta db =
      let db' = record db { config_usage = config_row c l ct cfg delta ∷ db.config_usage } in
      if ltb 0 (buyer_debit (gb_of delta) l.price_per_gb_usd c.commission_pct)
      then add_txn (debit_txn c l cfg delta) db'
      else db'

  unfoldable pub bill_config : Cycle → Listing → ClientTraffic → Config → Db × Bool → Db × Bool
  unfolding delta_since record_config update_rows
  bill_config c l ct cfg (db, had_traffic) =
      let billed = leb min_billable_bytes (client_delta cfg ct) in
      let db' = if billed then record_config c l ct cfg (client_delta cfg ct) db else db in
      let anchor = next_anchor c.reset_succeeded (ct.up + ct.down) in
      let configs = update_rows (λ x. x.id == cfg.id) (set_snapshot_anchor anchor) db'.configs in
      (record db' { configs = configs }, had_traffic || billed)

  unfoldable pub bill_client : Cycle → Listing → ClientTraffic → Db × Bool → Db × Bool
  unfolding bill_config first_row
  bill_client c l ct s = elim (first_row (has_email l ct.email) s.0.configs) [
    | none ↦ s
    | some cfg ↦ bill_config c l ct cfg s
  ]

  unfoldable pub bill_clients : Cycle → Listing → List ClientTraffic → Db × Bool → Db × Bool
  unfolding bill_client
  bill_clients c l [] s = s
  bill_clients c l (ct ∷ cts) s = bill_clients c l cts (bill_client c l ct s)

  -- `_bill_inbound`
  unfoldable pub bill_inbound : Cycle → Listing → InboundSnapshot → Db → Db × Bool
  unfolding bill_seller bill_clients
  bill_inbound c l snap db = bill_clients c l snap.clients (bill_seller c l snap db)
