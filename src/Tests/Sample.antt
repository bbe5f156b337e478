-- ===== src/Tests/Sample.antt =====
-- Rows that the tests share. User 10 sells, users 20 and 21 buy.
use abr_out.Prelude.{ℕ, [], ◌∷◌, none, some, true, false}
use abr_out.Prelude.Int.{ℤ, pos}
use abr_out.Models.{
  Db, User, Listing, ListingStatus, Config, ConfigStatus, WalletTransaction, TxnType, Currency,
}
use abr_out.Outside.{World, Panel, Reply, InboundSnapshot, ClientTraffic}

abbrev pub listing : Listing
listing = record {
  id = 1;
  seller_user_id = 10;
  title = [];
  iran_host = [];
  port = 443;
  panel_inbound_id = some 7;
  price_per_gb_usd = 5_000;
  status = ListingStatus.active;
  total_gb_sold = 0;
  avg_ping_ms = none;
  stability_pct = none;
  probe_client_uuid = none;
  probe_client_email = none;
  pending_until_at = none;
  last_probed_at = none;
  last_ok_ping_at = none;
  broken_since = none;
  recovered_at = none;
  broken_notify_count = 0;
  sales_count = 2;
  last_outbound_up_bytes = 0;
  last_outbound_down_bytes = 0;
  disabled_at = none;
  deleted_at = none;
  created_at = 0;
}

-- The config with this id, of this buyer; its address is its id.
abbrev pub config : ℕ → ℕ → Config
config id buyer = record {
  id = id;
  listing_id = 1;
  buyer_user_id = buyer;
  panel_client_uuid = id;
  panel_client_email = id ∷ [];
  name = [];
  expiry_at = none;
  total_gb_limit = some (pos 10_000);
  vless_link = [];
  status = ConfigStatus.active;
  last_traffic_bytes = 0;
  last_snapshot_bytes = 0;
  auto_disable_on_price_increase = false;
  auto_disabled_at = none;
  deleted_at = none;
  created_at = 0;
}

abbrev pub deposit : ℕ → ℤ → WalletTransaction
deposit user amount = record {
  user_id = user;
  amount = amount;
  currency = Currency.usd;
  type = TxnType.topup;
  ref = none;
  note = none;
  idempotency_key = none;
}

abbrev pub user : ℕ → User
user id = record {
  telegram_id = id;
  username = none;
  is_admin = false;
  is_blocked = false;
  started_at = none;
  created_at = id;
}

-- Buyer 20 has ten dollars, buyer 21 has none, the seller has fifty.
abbrev pub market : Db
market = record {
  users = user 10 ∷ user 20 ∷ user 21 ∷ [];
  listings = listing ∷ [];
  configs = config 1 20 ∷ config 2 21 ∷ [];
  outbound_usage = [];
  config_usage = [];
  wallet_transactions = deposit 20 (pos 1_000_000_000) ∷ deposit 10 (pos 5_000_000_000) ∷ [];
  ping_samples = [];
  payment_intents = [];
  withdrawal_requests = [];
  auto_withdrawal_configs = [];
  support_messages = [];
  broadcasts = [];
}

-- Each client of the inbound has moved 2 GiB.
abbrev pub client_traffic : ℕ → ClientTraffic
client_traffic email = record { email = email ∷ []; up = 0; down = 2_147_483_648 }

abbrev pub snapshot : InboundSnapshot
snapshot = record {
  inbound_id = 7;
  up = 0;
  down = 4_294_967_296;
  enable = true;
  clients = client_traffic 1 ∷ client_traffic 2 ∷ [];
}

abbrev pub panel : Panel
panel = record {
  get_inbound_snapshot = λ inbound. some snapshot;
  reset_inbound_clients_traffic = λ inbound. true;
  reset_all_inbounds_stat = true;
  update_client_enabled = λ inbound uuid email enable. Reply.done;
  login = Reply.done;
  add_vless_tcp_inbound = λ port remark host. (Reply.done, some 8);
  delete_inbound = λ inbound. Reply.done;
  add_client = λ inbound uuid email bytes expiry enable. Reply.done;
  delete_client = λ inbound uuid. Reply.done;
}

abbrev pub world_of : Db → World
world_of db = record { db = db; effects = [] }
