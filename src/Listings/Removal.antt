-- ===== src/Listings/Removal.antt =====
-- `disable_listing` and `delete_listing`. In a session with the panel a refusal is passed over, and
-- any other exception ends the session, not the request.
use abr_out.Prelude.{
  ℕ, List, [], ◌∷◌, Option, none, some, Bool, true, false, not, ◌==◌, ◌&&◌, map, if◌then◌else◌,
}
use abr_out.Prelude.Rows.{select, update_rows, distinct, sort_ids}
use abr_out.Models.{
  Listing, ListingStatus, Config, ConfigStatus, config_active, config_deleted, listing_disabled,
}
use abr_out.Outside.{World, Panel, Reply, Effect, Message, emit}
use abr_out.Notifications.{notify_listing_buyers, send_to_users}
use abr_out.Http.{Outcome, ok}
use abr_out.Listings.{load_owned_listing}
use abr_out.Listings.Retest.{when_ok, write_row}

-- A request per config. The flag says whether the session lives on.
unfoldable pub each_client :
    (Config → Effect) → (Config → Reply) → List Config → World → Bool × World
each_client effect reply [] w = (true, w)
each_client effect reply (c ∷ cs) w =
    let w' = emit (effect c) w in
    let rest = each_client effect reply cs w' in
    elim (reply c) [ Reply.done ↦ rest | Reply.refused ↦ rest | Reply.unreachable ↦ (false, w') ]

abbrev pub has_rows : List Config → Bool
has_rows [] = false
has_rows (c ∷ cs) = true

abbrev pub logs_in : Panel → Bool
logs_in panel = elim panel.login [ Reply.done ↦ true | _ ↦ false ]

abbrev pub active_of : ℕ → Config → Bool
active_of listing c = c.listing_id == listing && config_active c.status

abbrev pub kept_of : ℕ → Config → Bool
kept_of listing c = c.listing_id == listing && not (config_deleted c.status)

abbrev pub write_configs : (Config → Bool) → (Config → Config) → World → World
write_configs p f w = record w { db = record (w.db) { configs = update_rows p f w.db.configs } }

module _ (panel : Panel) where
  unfoldable pub disable_clients : List Config → Option ℕ → World → World
  unfolding each_client
  disable_clients cs none w = w
  disable_clients cs (some inbound) w =
      if has_rows cs && logs_in panel
      then (each_client
          (λ c. Effect.set_enabled inbound c.panel_client_uuid c.panel_client_email false)
          (λ c. panel.update_client_enabled inbound c.panel_client_uuid c.panel_client_email false)
          cs w).1
      else w

  abbrev pub delete_inbound_if : Bool → ℕ → World → World
  delete_inbound_if alive inbound w = if alive then emit (Effect.remove_inbound inbound) w else w

  unfoldable pub delete_clients : List Config → Option ℕ → World → World
  unfolding each_client
  delete_clients cs none w = w
  delete_clients cs (some inbound) w =
      let (alive, w') =
        each_client (λ c. Effect.remove_client inbound c.panel_client_uuid)
          (λ c. panel.delete_client inbound c.panel_client_uuid) cs w in
      if logs_in panel then delete_inbound_if alive inbound w' else w

  module _ (now : ℕ) where
    abbrev pub pause : Listing → Listing
    pause l = record l { status = ListingStatus.disabled; disabled_at = some now }

    abbrev pub stop : Config → Config
    stop c = record c { status = ConfigStatus.disabled }

    unfoldable pub disable_owned : World → Listing → Outcome Listing × World
    unfolding disable_clients select update_rows notify_listing_buyers
    disable_owned w l =
        let cs = select (active_of l.id) w.db.configs in
        let told = disable_clients cs l.panel_inbound_id w in
        let stored = write_row pause l.id (write_configs (active_of l.id) stop told) in
        if listing_disabled l.status then (ok l, w) else (
          ok (pause l),
          notify_listing_buyers l.id (Message.listing_disabled l.id) false false stored,
        )

    -- `disable_listing`
    unfoldable pub disable_listing : ℕ → ℕ → World → Outcome Listing × World
    unfolding load_owned_listing disable_owned
    disable_listing k user w = when_ok (load_owned_listing k user w.db) w (disable_owned w)

    abbrev pub remove : Listing → Listing
    remove l = record l { status = ListingStatus.deleted; deleted_at = some now }

    abbrev pub remove_config : Config → Config
    remove_config c = record c { status = ConfigStatus.deleted; deleted_at = some now }

    unfoldable pub delete_owned : World → Listing → Outcome Listing × World
    unfolding delete_clients select update_rows send_to_users distinct sort_ids
    delete_owned w l =
        let cs = select (kept_of l.id) w.db.configs in
        let affected_buyer_ids = sort_ids (distinct (map (λ c. c.buyer_user_id) cs)) in
        let told = delete_clients cs l.panel_inbound_id w in
        let stored = write_row remove l.id (write_configs (kept_of l.id) remove_config told) in
        (ok (remove l), send_to_users affected_buyer_ids (Message.listing_deleted l.id) stored)

    -- `delete_listing`
    unfoldable pub delete_listing : ℕ → ℕ → World → Outcome Listing × World
    unfolding load_owned_listing delete_owned
    delete_listing k user w = when_ok (load_owned_listing k user w.db) w (delete_owned w)
