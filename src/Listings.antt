-- ===== src/Listings.antt =====
-- app/api/routes/listings.py: a seller's listings. The clock, new ids and uuids, the window of the
-- quality gate and how the uuid library writes a uuid are arguments, and so are the flags by which
-- Python's `ipaddress` tells an address that is not public. A price is given in the scale of its
-- column. Log lines and the fields of an answer are left out.
pub mod Link
pub mod Cleanup
pub mod Saved
pub mod Retest
pub mod Patch
pub mod Moved
pub mod Removal
pub mod Removed
use abr_out.Prelude.{
  ℕ, suc, ◌+◌, ◌*◌, ◌-◌, ◌^◌, List, [], ◌∷◌, ◌++◌, Option, none, some, Bool, true, false, not, ◌&&◌,
  ◌||◌, ◌==◌, ltb, leb, is_some, length, if◌then◌else◌,
}
use abr_out.Prelude.Text.{Text, codes}
use abr_out.Prelude.Rows.{select, update_rows, first_row, exists_row}
use abr_out.Wallet.{unique_listings}
use abr_out.Models.{Db, Listing, ListingStatus, listing_deleted}
use abr_out.Outside.{World, Panel, Reply, Effect, emit, ask}
use abr_out.Http.{HttpError, Outcome, ok, fail, ◌>>=◌, ◌>>◌, raise_if}
use abr_out.Vless.{is_digit, all_plain, lstrip, rstrip, decimal}

-- `MAX_LISTINGS_PER_SELLER`
abbrev pub max_listings_per_seller : ℕ
max_listings_per_seller = 5

-- The parts of a text between its dots.
abbrev push : ℕ → List Text → List Text
push c [] = (c ∷ []) ∷ []
push c (p ∷ ps) = (c ∷ p) ∷ ps

unfoldable pub split_dots : Text → List Text
split_dots [] = [] ∷ []
split_dots (c ∷ s) = let rest = split_dots s in if c == b'.' then [] ∷ rest else push c rest

-- `25[0-5]|2[0-4]\d|1\d\d|[1-9]?\d`: a number up to 255 in ASCII digits, without leading zeros. Other
-- digits pass the pattern, but `IPv4Address` refuses them.
abbrev pub octet : Text → Option ℕ
octet (a ∷ []) = if is_digit a then some (a - 48) else none
octet (a ∷ b ∷ []) =
    if is_digit a && is_digit b && not (a == 48) then some ((a - 48) * 10 + (b - 48)) else none
octet (a ∷ b ∷ c ∷ []) =
    let n = (a - 48) * 100 + (b - 48) * 10 + (c - 48) in
    if is_digit a && is_digit b && is_digit c && not (a == 48) && leb n 255 then some n else none
octet _ = none

abbrev joined : Option ℕ → Option ℕ → Option ℕ → Option ℕ → Option ℕ
joined (some a) (some b) (some c) (some d) = some (a * 2 ^ 24 + b * 2 ^ 16 + c * 2 ^ 8 + d)
joined _ _ _ _ = none

abbrev pub of_octets : List Text → Option ℕ
of_octets (a ∷ b ∷ c ∷ d ∷ []) = joined (octet a) (octet b) (octet c) (octet d)
of_octets _ = none

-- `_IPV4_RE.fullmatch` and `IPv4Address`: the number of the address.
unfoldable pub ipv4 : Text → Option ℕ
unfolding split_dots
ipv4 s = of_octets (split_dots s)

-- 100.64.0.0 to 100.127.255.255
abbrev pub is_cgnat : ℕ → Bool
is_cgnat ip = leb 1_681_915_904 ip && leb ip 1_686_110_207

abbrev pub allowed : (ℕ → Bool) → Text → Option ℕ → Option Text
allowed is_flagged s none = none
allowed is_flagged s (some ip) = if is_flagged ip && not (is_cgnat ip) then none else some s

-- `_validate_public_ipv4`; none is a ValueError.
unfoldable pub validate_public_ipv4 : (ℕ → Bool) → Text → Option Text
unfolding lstrip rstrip ipv4
validate_public_ipv4 is_flagged raw = let s = rstrip (lstrip raw) in allowed is_flagged s (ipv4 s)

-- `ListingCreateIn`
pub record ListingCreateIn : Type 0 where
  pub title : Text
  pub iran_host : Text
  pub port : ℕ
  pub price_per_gb_usd : ℕ

abbrev pub has_length : ℕ → ℕ → Text → Bool
has_length lo hi s = leb lo (length s) && leb (length s) hi

-- `_ascii_title`; none is a ValueError.
unfoldable pub ascii_title : Text → Option Text
unfolding lstrip rstrip all_plain
ascii_title raw =
    let s = rstrip (lstrip raw) in if leb 1 (length s) && all_plain s then some s else none

abbrev pub or_invalid : {A : Type 0} → Option A → Outcome A
or_invalid none = fail HttpError.invalid_body
or_invalid (some a) = ok a

-- The body with its texts normalised, or a refusal.
unfoldable pub check_body : (ℕ → Bool) → ListingCreateIn → Outcome ListingCreateIn
unfolding ascii_title validate_public_ipv4
check_body is_flagged body = do
  raise_if (not (has_length 2 128 body.title && has_length 7 15 body.iran_host))
      HttpError.invalid_body
  raise_if (not (leb 1 body.port && leb body.port 65_535 && leb 1 body.price_per_gb_usd))
      HttpError.invalid_body
  title ← or_invalid (ascii_title body.title)
  host ← or_invalid (validate_public_ipv4 is_flagged body.iran_host)
  ok (record body { title = title; iran_host = host })

abbrev pub counts_for : ℕ → Listing → Bool
counts_for seller l = l.seller_user_id == seller && not (listing_deleted l.status)

unfoldable pub active_count : ℕ → Db → ℕ
unfolding select
active_count seller db = length (select (counts_for seller) db.listings)

abbrev pub is_full : ℕ → Db → Bool
is_full seller db = leb max_listings_per_seller (active_count seller db)

-- The checks of `create_listing` before it asks the panel.
unfoldable pub check_listing : (ℕ → Bool) → ℕ → ListingCreateIn → Db → Outcome ListingCreateIn
unfolding check_body active_count exists_row
check_listing is_flagged user raw db = do
  body ← check_body is_flagged raw
  raise_if (is_full user db) HttpError.too_many_listings
  raise_if (exists_row (λ l. l.port == body.port) db.listings) HttpError.port_in_use
  ok body

module _ (panel : Panel) (now pending_until id uuid : ℕ) where
  unfoldable pub new_listing : ℕ → ListingCreateIn → ℕ → Listing
  unfolding decimal
  new_listing user body inbound = record {
    id = id;
    seller_user_id = user;
    title = body.title;
    iran_host = body.iran_host;
    port = body.port;
    panel_inbound_id = some inbound;
    price_per_gb_usd = body.price_per_gb_usd;
    status = ListingStatus.pending;
    total_gb_sold = 0;
    avg_ping_ms = none;
    stability_pct = none;
    probe_client_uuid = some uuid;
    probe_client_email = some (codes "probe-" ++ decimal inbound);
    pending_until_at = some pending_until;
    last_probed_at = none;
    last_ok_ping_at = none;
    broken_since = none;
    recovered_at = none;
    broken_notify_count = 0;
    sales_count = 0;
    last_outbound_up_bytes = 0;
    last_outbound_down_bytes = 0;
    disabled_at = none;
    deleted_at = none;
    created_at = now;
  }

  -- The cleanup in a session of its own; its failure is logged and passed over.
  abbrev pub clean_up : ℕ → World → World
  clean_up inbound w =
      (ask panel (Effect.remove_inbound inbound) (panel.delete_inbound inbound) w).1

  -- The second session: the cap again under the lock, the row, the commit, which fails where the
  -- port or the inbound is taken.
  unfoldable pub save_listing : ℕ → ListingCreateIn → ℕ → World → Outcome Listing × World
  unfolding new_listing active_count unique_listings
  save_listing user body inbound w =
      let l = new_listing user body inbound in
      let db' = record (w.db) { listings = l ∷ w.db.listings } in
      if is_full user w.db
      then (fail HttpError.too_many_listings, clean_up inbound w)
      else if unique_listings db'.listings
      then (ok l, record w { db = db' })
      else (fail HttpError.save_failed, clean_up inbound w)

  -- The probe client, in the session that added the inbound.
  abbrev pub add_probe_client : ListingCreateIn → ℕ → World → Reply × World
  add_probe_client body inbound w =
      let email = codes "probe-" ++ decimal inbound in
      (
        panel.add_client inbound uuid email 0 0 true,
        emit (Effect.add_client inbound uuid email 0 0) w,
      )

  module _ (meanwhile : Db → Db) where
    -- Between the two sessions others commit.
    abbrev pub after_client : ℕ → ListingCreateIn → ℕ → Reply × World → Outcome Listing × World
    after_client user body inbound (Reply.done, w) =
        save_listing user body inbound (record w { db = meanwhile w.db })
    after_client user body inbound (r, w) =
        (fail HttpError.panel_error, emit (Effect.remove_inbound inbound) w)

    abbrev pub after_inbound :
        ℕ → ListingCreateIn → Reply × Option ℕ → World → Outcome Listing × World
    after_inbound user body (Reply.done, some inbound) w =
        after_client user body inbound (add_probe_client body inbound w)
    after_inbound user body r w = (fail HttpError.panel_error, w)

    abbrev pub provision_listing : ℕ → Outcome ListingCreateIn → World → Outcome Listing × World
    provision_listing user (fail e) w = (fail e, w)
    provision_listing user (ok body) w =
        let (reply, inbound) = panel.add_vless_tcp_inbound body.port body.title body.iran_host in
        let effect = Effect.add_inbound body.port body.title body.iran_host in
        let (answer, w') = ask panel effect reply w in after_inbound user body (answer, inbound) w'

    -- `create_listing`
    unfoldable pub create_listing :
        (ℕ → Bool) → ℕ → ListingCreateIn → World → Outcome Listing × World
    unfolding check_listing save_listing
    create_listing is_flagged user body w =
        provision_listing user (check_listing is_flagged user body w.db) w

-- `_load_owned_listing`
unfoldable pub load_owned_listing : ℕ → ℕ → Db → Outcome Listing
unfolding first_row
load_owned_listing k user db = elim (first_row (λ l. l.id == k) db.listings) [
  | none ↦ fail HttpError.listing_not_found
  | some l ↦
      if listing_deleted l.status
      then fail HttpError.listing_not_found
      else if l.seller_user_id == user
      then ok l
      else fail HttpError.not_your_listing
]
