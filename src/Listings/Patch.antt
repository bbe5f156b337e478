-- ===== src/Listings/Patch.antt =====
-- `patch_listing`: a seller edits a listing in place. A host change rewrites the links of the buyers;
-- a price increase disables the configs whose buyers asked for that.
use abr_out.Prelude.{
  ℕ, List, [], ◌∷◌, Option, none, some, Bool, true, false, not, ◌&&◌, ◌||◌, ◌==◌, ltb, leb, get_or,
  if◌then◌else◌,
}
use abr_out.Prelude.Text.{Text, same_text}
use abr_out.Prelude.Rows.{select, update_rows, contains}
use abr_out.Models.{
  Db, Listing, ListingStatus, Config, ConfigStatus, config_active, listing_broken, listing_disabled,
  listing_pending,
}
use abr_out.Outside.{World, Panel, Reply, Effect, Message, emit}
use abr_out.Notifications.{notify_listing_buyers}
use abr_out.Http.{HttpError, Outcome, ok, fail, ◌>>=◌, ◌>>◌, raise_if}
use abr_out.Listings.{load_owned_listing, ascii_title, validate_public_ipv4, or_invalid, has_length}
use abr_out.Listings.Link.{rewrite_vless_host}
use abr_out.Listings.Removal.{kept_of, has_rows, logs_in}
use abr_out.Listings.Retest.{when_ok, write_row}

-- `ListingPatchIn`
pub record ListingPatchIn : Type 0 where
  pub title : Option Text
  pub iran_host : Option Text
  pub price_per_gb_usd : Option ℕ

unfoldable pub checked_title : Option Text → Outcome (Option Text)
unfolding ascii_title
checked_title none = ok none
checked_title (some raw) = do
  raise_if (not (has_length 2 128 raw)) HttpError.invalid_body
  title ← or_invalid (ascii_title raw)
  ok (some title)

unfoldable pub checked_host : (ℕ → Bool) → Option Text → Outcome (Option Text)
unfolding validate_public_ipv4
checked_host is_flagged none = ok none
checked_host is_flagged (some raw) = do
  raise_if (not (has_length 7 15 raw)) HttpError.invalid_body
  host ← or_invalid (validate_public_ipv4 is_flagged raw)
  ok (some host)

abbrev is_price : Option ℕ → Bool
is_price none = true
is_price (some p) = leb 1 p

unfoldable pub check_edit : (ℕ → Bool) → ListingPatchIn → Outcome ListingPatchIn
unfolding checked_title checked_host
check_edit is_flagged body = do
  title ← checked_title body.title
  host ← checked_host is_flagged body.iran_host
  raise_if (not (is_price body.price_per_gb_usd)) HttpError.invalid_body
  ok (record body { title = title; iran_host = host })

abbrev text_changed : Option Text → Text → Bool
text_changed none old = false
text_changed (some new) old = not (same_text new old)

abbrev price_changed : Option ℕ → ℕ → Bool
price_changed none old = false
price_changed (some new) old = not (new == old)

abbrev pub price_increased : Option ℕ → ℕ → Bool
price_increased none old = false
price_increased (some new) old = ltb old new

abbrev pub host_changed : ListingPatchIn → Listing → Bool
host_changed body l = text_changed body.iran_host l.iran_host

-- `edited`
abbrev pub is_edited : ListingPatchIn → Listing → Bool
is_edited body l =
    text_changed body.title l.title
    || host_changed body l
    || price_changed body.price_per_gb_usd l.price_per_gb_usd

abbrev pub set_fields : ListingPatchIn → Listing → Listing
set_fields body l = record l {
  title = get_or body.title l.title;
  iran_host = get_or body.iran_host l.iran_host;
  price_per_gb_usd = get_or body.price_per_gb_usd l.price_per_gb_usd;
}

-- A fresh test of a listing that is not on sale.
abbrev pub test_again : ℕ → Listing → Listing
test_again pending_until l = record l {
  status = ListingStatus.pending;
  pending_until_at = some pending_until;
  broken_since = none;
  disabled_at = none;
  recovered_at = none;
}

abbrev pub is_off : ListingStatus → Bool
is_off s = listing_broken s || listing_disabled s

abbrev pub edit : ℕ → ListingPatchIn → Listing → Listing
edit pending_until body l =
    if is_edited body l && is_off l.status
    then test_again pending_until (set_fields body l)
    else set_fields body l

-- The links of the listing's configs with the new host; none is an exception.
abbrev pub relink : Config → Option Text → Option (List Config) → Option (List Config)
relink c none rest = none
relink c (some link) none = none
relink c (some link) (some cs) = some (record c { vless_link = link } ∷ cs)

abbrev pub keep_link : Config → Option (List Config) → Option (List Config)
keep_link c none = none
keep_link c (some cs) = some (c ∷ cs)

unfoldable pub relink_all : ℕ → Text → ℕ → List Config → Option (List Config)
unfolding rewrite_vless_host
relink_all listing host port [] = some []
relink_all listing host port (c ∷ cs) =
    let rest = relink_all listing host port cs in
    if kept_of listing c
    then relink c (rewrite_vless_host c.vless_link host port) rest
    else keep_link c rest

abbrev pub opted_in : ℕ → Config → Bool
opted_in listing c =
    c.listing_id == listing && config_active c.status && c.auto_disable_on_price_increase

module _ (panel : Panel) where
  -- The configs that the panel did disable, one request each, until an exception ends the session.
  unfoldable pub disable_opted_in : ℕ → List Config → World → List ℕ × World
  disable_opted_in inbound [] w = ([], w)
  disable_opted_in inbound (c ∷ cs) w =
      let w' = emit (Effect.set_enabled inbound c.panel_client_uuid c.panel_client_email false) w in
      let (ids, w'') = disable_opted_in inbound cs w' in
      elim (panel.update_client_enabled inbound c.panel_client_uuid c.panel_client_email false) [
        | Reply.done ↦ (c.id ∷ ids, w'')
        | Reply.refused ↦ (ids, w'')
        | Reply.unreachable ↦ ([], w')
      ]

  unfoldable pub price_pass : Bool → Option ℕ → List Config → World → List ℕ × World
  unfolding disable_opted_in
  price_pass increased none cs w = ([], w)
  price_pass increased (some inbound) cs w =
      if increased && has_rows cs && logs_in panel then disable_opted_in inbound cs w else ([], w)

  abbrev some_id : List ℕ → Bool
  some_id [] = false
  some_id (i ∷ is) = true

  unfoldable pub notify_edit : ListingPatchIn → Listing → Listing → List ℕ → World → World
  unfolding notify_listing_buyers
  notify_edit body old l ids w =
      let moved =
        if host_changed body old
        then notify_listing_buyers l.id (Message.listing_moved l.id old.iran_host l.iran_host) false
            false w
        else w in
      let raised =
        if price_increased body.price_per_gb_usd old.price_per_gb_usd && some_id ids
        then notify_listing_buyers l.id (Message.price_raised l.id) true false moved
        else moved in
      if is_edited body old && listing_pending l.status
      then emit (Effect.message l.seller_user_id (Message.retested l.title l.id)) raised
      else raised

  abbrev pub stop_all : List ℕ → List Config → List Config
  stop_all ids cs =
      update_rows (λ c. contains c.id ids) (λ c. record c { status = ConfigStatus.disabled }) cs

  module _ (pending_until : ℕ) where
    abbrev pub links_of : ListingPatchIn → Listing → Db → Option (List Config)
    links_of body l db =
        if host_changed body l
        then relink_all l.id (edit pending_until body l).iran_host l.port db.configs
        else some db.configs

    unfoldable pub store_edit :
        ListingPatchIn → Listing → World → Option (List Config) → Outcome Listing × World
    unfolding price_pass notify_edit select update_rows contains
    store_edit body l w none = (fail HttpError.server_error, w)
    store_edit body l w (some cs) =
        let l' = edit pending_until body l in
        let increased = price_increased body.price_per_gb_usd l.price_per_gb_usd in
        let (ids, told) = price_pass increased l.panel_inbound_id (select (opted_in l.id) cs) w in
        let db' = record (told.db) { configs = stop_all ids cs } in
        let stored = write_row (λ x. l') l.id (record told { db = db' }) in
        (ok l', notify_edit body l l' ids stored)

    unfoldable pub patch_owned : ListingPatchIn → World → Listing → Outcome Listing × World
    unfolding store_edit relink_all
    patch_owned body w l = store_edit body l w (links_of body l w.db)

    abbrev pub patch_checked : ℕ → ℕ → World → Outcome ListingPatchIn → Outcome Listing × World
    patch_checked k user w (fail e) = (fail e, w)
    patch_checked k user w (ok body) =
        when_ok (load_owned_listing k user w.db) w (patch_owned body w)

    -- `patch_listing`
    unfoldable pub patch_listing :
        (ℕ → Bool) → ℕ → ℕ → ListingPatchIn → World → Outcome Listing × World
    unfolding check_edit load_owned_listing patch_owned
    patch_listing is_flagged k user body w = patch_checked k user w (check_edit is_flagged body)
