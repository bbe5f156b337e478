-- ===== src/Models/Market.antt =====
-- Listings, configs, usage rows and ping samples of app/common/db/models.py.
use abr_out.Prelude.{ℕ, Option, Bool, true, false}
use abr_out.Prelude.Int.{ℤ}
use abr_out.Prelude.Text.{Text}

pub data ListingStatus : Type 0 where
  pending active broken disabled deleted : ListingStatus

pub data ConfigStatus : Type 0 where
  active disabled deleted : ConfigStatus

-- `status == s`, for each status that a query names.
abbrev pub listing_pending : ListingStatus → Bool
listing_pending ListingStatus.pending = true
listing_pending _ = false

abbrev pub listing_active : ListingStatus → Bool
listing_active ListingStatus.active = true
listing_active _ = false

abbrev pub listing_broken : ListingStatus → Bool
listing_broken ListingStatus.broken = true
listing_broken _ = false

abbrev pub listing_disabled : ListingStatus → Bool
listing_disabled ListingStatus.disabled = true
listing_disabled _ = false

abbrev pub listing_deleted : ListingStatus → Bool
listing_deleted ListingStatus.deleted = true
listing_deleted _ = false

abbrev pub config_active : ConfigStatus → Bool
config_active ConfigStatus.active = true
config_active _ = false

abbrev pub config_disabled : ConfigStatus → Bool
config_disabled ConfigStatus.disabled = true
config_disabled _ = false

abbrev pub config_deleted : ConfigStatus → Bool
config_deleted ConfigStatus.deleted = true
config_deleted _ = false

-- A seller's outbound.
pub record Listing : Type 0 where
  pub id : ℕ
  pub seller_user_id : ℕ
  pub title : Text
  pub iran_host : Text
  pub port : ℕ
  pub panel_inbound_id : Option ℕ
  pub price_per_gb_usd : ℕ
  pub status : ListingStatus
  pub total_gb_sold : ℕ
  pub avg_ping_ms : Option ℤ
  pub stability_pct : Option ℕ
  pub probe_client_uuid : Option ℕ
  pub probe_client_email : Option Text
  pub pending_until_at : Option ℕ
  pub last_probed_at : Option ℕ
  pub last_ok_ping_at : Option ℕ
  pub broken_since : Option ℕ
  pub recovered_at : Option ℕ
  pub broken_notify_count : ℕ
  pub sales_count : ℕ
  pub last_outbound_up_bytes : ℕ
  pub last_outbound_down_bytes : ℕ
  pub disabled_at : Option ℕ
  pub deleted_at : Option ℕ
  pub created_at : ℕ

-- One client of a buyer under a seller's listing. `total_gb_limit` is in 10^-4 GB.
pub record Config : Type 0 where
  pub id : ℕ
  pub listing_id : ℕ
  pub buyer_user_id : ℕ
  pub panel_client_uuid : ℕ
  pub panel_client_email : Text
  pub name : Text
  pub expiry_at : Option ℕ
  pub total_gb_limit : Option ℤ
  pub vless_link : Text
  pub status : ConfigStatus
  pub last_traffic_bytes : ℕ
  pub last_snapshot_bytes : ℕ
  pub auto_disable_on_price_increase : Bool
  pub auto_disabled_at : Option ℕ
  pub deleted_at : Option ℕ
  pub created_at : ℕ

pub record OutboundUsage : Type 0 where
  pub listing_id : ℕ
  pub seller_user_id : ℕ
  pub panel_inbound_id : Option ℕ
  pub cycle_id : ℕ
  pub delta_up_bytes : ℕ
  pub delta_down_bytes : ℤ
  pub delta_total_bytes : ℕ
  pub gb : ℕ
  pub seller_credit_usd : ℕ
  pub panel_total_up_bytes : ℕ
  pub panel_total_down_bytes : ℕ
  pub reset_attempted : Bool
  pub reset_succeeded : Bool
  pub sampled_at : ℕ

pub record ConfigUsage : Type 0 where
  pub config_id : ℕ
  pub listing_id : ℕ
  pub buyer_user_id : ℕ
  pub seller_user_id : ℕ
  pub cycle_id : ℕ
  pub delta_up_bytes : ℕ
  pub delta_down_bytes : ℤ
  pub delta_total_bytes : ℕ
  pub gb : ℕ
  pub buyer_debit_usd : ℕ
  pub seller_credit_usd : ℕ
  pub panel_email : Text
  pub reset_attempted : Bool
  pub reset_succeeded : Bool
  pub sampled_at : ℕ

pub record PingSample : Type 0 where
  pub listing_id : ℕ
  pub rtt_ms : Option ℤ
  pub ok : Bool
  pub sampled_at : ℕ
