-- ===== src/Configs.antt =====
-- app/api/routes/configs.py: a buyer's configs. The clock, the new id and the new uuid are arguments,
-- and so is how the uuid library writes a uuid. A limit is given in 10^-4 GB, the scale of its column.
-- A request is one step on the tables; log lines and the answer's other fields are left out.
pub mod Edit
pub mod Requests
pub mod Cap
pub mod Owner
pub mod Purchase
use abr_out.Prelude.{
  take, ℕ, suc, ◌+◌, ◌*◌, ◌/◌, List, [], ◌∷◌, ◌++◌, Option, none, some, Bool, true, false, not,
  ◌&&◌, ◌||◌, ◌==◌, ltb, leb, length, if◌then◌else◌,
}
use abr_out.Prelude.Int.{ℤ, pos, ltb_ℤ}
use abr_out.Prelude.Text.{Text, codes}
use abr_out.Prelude.Rows.{select, update_rows, first_row}
use abr_out.Models.{
  Db, Config, ConfigStatus, Listing, config_active, config_disabled, config_deleted, listing_active,
}
use abr_out.Outside.{World, Panel, Reply, Effect, ask}
use abr_out.Wallet.{usd_of}
use abr_out.Quota.{limit_bytes}
use abr_out.Http.{HttpError, Outcome, ok, fail, ◌>>=◌, ◌>>◌, raise_if}
use abr_out.Vless.{sanitize_name, squeeze, vless_link}

-- `MIN_BALANCE_FOR_NEW_CONFIG`, half a dollar.
abbrev pub min_balance_for_new_config : ℤ
min_balance_for_new_config = pos 50_000_000

-- `MAX_CONFIGS_PER_LISTING_PER_BUYER`
abbrev pub max_configs_per_listing_per_buyer : ℕ
max_configs_per_listing_per_buyer = 20

-- `ConfigCreateIn`
pub record ConfigCreateIn : Type 0 where
  pub listing_id : ℕ
  pub name : Text
  pub expiry_days : Option ℕ
  pub total_gb_limit : Option ℕ
  pub auto_disable_on_price_increase : Bool

-- `ConfigPatchIn`
pub record ConfigPatchIn : Type 0 where
  pub name : Option Text
  pub auto_disable_on_price_increase : Option Bool

abbrev within : ℕ → ℕ → Option ℕ → Bool
within lo hi none = true
within lo hi (some n) = leb lo n && leb n hi

abbrev is_name_body : Text → Bool
is_name_body s = leb 1 (length s) && leb (length s) 64

-- The limits of the fields.
abbrev pub is_create_body : ConfigCreateIn → Bool
is_create_body b =
    is_name_body b.name && within 1 3_650 b.expiry_days && within 1 1_000_000_000 b.total_gb_limit

abbrev pub is_patch_body : ConfigPatchIn → Bool
is_patch_body b = elim b.name [ none ↦ true | some s ↦ is_name_body s ]

abbrev pub has_name : Text → Bool
has_name [] = false
has_name (c ∷ s) = true

-- A config that takes a slot of the buyer under the listing.
abbrev pub takes_slot : ℕ → ℕ → Config → Bool
takes_slot listing buyer c =
    c.listing_id == listing && c.buyer_user_id == buyer && not (config_deleted c.status)

unfoldable pub existing_count : ℕ → ℕ → Db → ℕ
unfolding select
existing_count listing buyer db = length (select (takes_slot listing buyer) db.configs)

abbrev sellable : Option Listing → Outcome Listing
sellable none = fail HttpError.listing_not_found
sellable (some l) = if listing_active l.status then ok l else fail HttpError.listing_not_found

abbrev provisioned : Option ℕ → Outcome ℕ
provisioned none = fail HttpError.not_provisioned
provisioned (some inbound) = ok inbound

-- What follows the checks of a request; a failed check ends it.
abbrev pub when_ok :
    {A : Type 0} → Outcome A → World → (A → Outcome Config × World) → Outcome Config × World
when_ok (ok a) w next = next a
when_ok (fail e) w next = (fail e, w)

-- The checks of `create_config`, in their order: the name, the listing and its inbound.
unfoldable pub check_create : ℕ → ConfigCreateIn → Db → Outcome (Text × Listing × ℕ)
unfolding sanitize_name first_row existing_count
check_create user body db = do
  raise_if (not (is_create_body body)) HttpError.invalid_body
  let name = sanitize_name body.name
  raise_if (not (has_name name)) HttpError.invalid_name
  raise_if (ltb_ℤ (usd_of db user) min_balance_for_new_config) HttpError.insufficient_balance
  listing ← sellable (first_row (λ l. l.id == body.listing_id) db.listings)
  raise_if (listing.seller_user_id == user) HttpError.own_listing
  inbound ← provisioned listing.panel_inbound_id
  raise_if (leb max_configs_per_listing_per_buyer (existing_count listing.id user db))
      HttpError.too_many_configs
  ok (name, listing, inbound)

abbrev pub microseconds_per_day : ℕ
microseconds_per_day = 86_400_000_000

abbrev expiry_at : ℕ → Option ℕ → Option ℕ
expiry_at now none = none
expiry_at now (some days) = some (now + days * microseconds_per_day)

-- Zero is no expiry and no limit.
abbrev expiry_ms : Option ℕ → ℕ
expiry_ms none = 0
expiry_ms (some t) = t / 1_000

abbrev pub at_least_one : ℕ → ℕ
at_least_one n = if n == 0 then 1 else n

unfoldable pub total_bytes_xui : Option ℕ → ℕ
unfolding limit_bytes
total_bytes_xui none = 0
total_bytes_xui (some limit) = at_least_one (limit_bytes limit)

abbrev limit_column : Option ℕ → Option ℤ
limit_column none = none
limit_column (some limit) = some (pos limit)

abbrev pub add_sale : Listing → Listing
add_sale l = record l { sales_count = suc l.sales_count }

module _ (panel : Panel) (uuid_text uuid_hex : ℕ → Text) (now id uuid : ℕ) where
  -- The panel's address of the client: the name and six digits of the uuid.
  unfoldable pub client_email : Text → Text
  unfolding squeeze take
  client_email name = squeeze b'_' false name ++ codes "-" ++ take 6 (uuid_hex uuid)

  unfoldable pub new_config : ℕ → ConfigCreateIn → Text → Listing → Config
  unfolding client_email vless_link
  new_config user body name listing = record {
    id = id;
    listing_id = listing.id;
    buyer_user_id = user;
    panel_client_uuid = uuid;
    panel_client_email = client_email name;
    name = name;
    expiry_at = expiry_at now body.expiry_days;
    total_gb_limit = limit_column body.total_gb_limit;
    vless_link = vless_link (uuid_text uuid) listing.iran_host listing.port (client_email name);
    status = ConfigStatus.active;
    last_traffic_bytes = 0;
    last_snapshot_bytes = 0;
    auto_disable_on_price_increase = body.auto_disable_on_price_increase;
    auto_disabled_at = none;
    deleted_at = none;
    created_at = now;
  }

  abbrev pub add_config : Config → Db → Db
  add_config c db = record db {
    configs = c ∷ db.configs;
    listings = update_rows (λ l. l.id == c.listing_id) add_sale db.listings;
  }

  abbrev pub store_config : Config → Reply × World → Outcome Config × World
  store_config c (Reply.done, w) = (ok c, record w { db = add_config c w.db })
  store_config c (Reply.refused, w) = (fail HttpError.panel_error, w)
  store_config c (Reply.unreachable, w) = (fail HttpError.server_error, w)

  -- The client on the panel, then the row.
  unfoldable pub provision :
      ℕ → ConfigCreateIn → Text × Listing × ℕ → World → Outcome Config × World
  unfolding new_config total_bytes_xui update_rows
  provision user body (name, listing, inbound) w =
      let c = new_config user body name listing in
      let bytes = total_bytes_xui body.total_gb_limit in
      let ms = expiry_ms c.expiry_at in
      let reply = panel.add_client inbound uuid c.panel_client_email bytes ms true in
      let effect = Effect.add_client inbound uuid c.panel_client_email bytes ms in
      store_config c (ask panel effect reply w)

  -- `create_config`
  unfoldable pub create_config : ℕ → ConfigCreateIn → World → Outcome Config × World
  unfolding check_create provision
  create_config user body w =
      when_ok (check_create user body w.db) w (λ checked. provision user body checked w)
