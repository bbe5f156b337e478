-- ===== src/Configs/Edit.antt =====
-- Disabling, enabling, editing and deletion of a config.
use abr_out.Prelude.{ℕ, Option, none, some, Bool, true, false, not, ◌==◌, if◌then◌else◌}
use abr_out.Prelude.Text.{Text}
use abr_out.Prelude.Rows.{update_rows, first_row}
use abr_out.Models.{
  Db, Config, ConfigStatus, Listing, config_active, config_disabled, config_deleted, listing_active,
}
use abr_out.Outside.{World, Panel, Reply, Effect, ask}
use abr_out.Http.{HttpError, Outcome, ok, fail, ◌>>=◌, ◌>>◌, raise_if}
use abr_out.Vless.{sanitize_name}
use abr_out.Configs.{ConfigPatchIn, is_patch_body, has_name, when_ok}

-- `_load_owned_config`: an inner join, so a config without its listing is not found.
unfoldable pub load_owned_config : ℕ → ℕ → Db → Outcome (Config × Listing)
unfolding first_row
load_owned_config config_id user db = elim (first_row (λ c. c.id == config_id) db.configs) [
  | none ↦ fail HttpError.config_not_found
  | some c ↦ elim (first_row (λ l. l.id == c.listing_id) db.listings) [
    | none ↦ fail HttpError.config_not_found
    | some l ↦
        if not (c.buyer_user_id == user)
        then fail HttpError.not_your_config
        else if config_deleted c.status
        then fail HttpError.config_not_found
        else ok (c, l)
  ]
]

abbrev pub write_row : (Config → Config) → ℕ → World → World
write_row f config_id w =
    let db = w.db in
    record w { db = record db { configs = update_rows (λ x. x.id == config_id) f db.configs } }

-- A refusal of the panel is logged and passed over; any other exception ends the request.
abbrev pub unless_unreachable : Reply × World → (Config → Config) → Config → Outcome Config × World
unless_unreachable (Reply.unreachable, w) f c = (fail HttpError.server_error, w)
unless_unreachable (r, w) f c = (ok (f c), write_row f c.id w)

module _ (panel : Panel) (now : ℕ) where
  abbrev pub tell_enabled : Bool → Config → Option ℕ → World → Reply × World
  tell_enabled enable c none w = (Reply.done, w)
  tell_enabled enable c (some inbound) w =
      ask panel (Effect.set_enabled inbound c.panel_client_uuid c.panel_client_email enable)
        (panel.update_client_enabled inbound c.panel_client_uuid c.panel_client_email enable) w

  abbrev pub tell_deleted : Config → Option ℕ → World → Reply × World
  tell_deleted c none w = (Reply.done, w)
  tell_deleted c (some inbound) w =
      ask panel (Effect.remove_client inbound c.panel_client_uuid)
        (panel.delete_client inbound c.panel_client_uuid) w

  abbrev pub set_status : ConfigStatus → Config → Config
  set_status s c = record c { status = s }

  abbrev pub set_deleted : Config → Config
  set_deleted c = record c { status = ConfigStatus.deleted; deleted_at = some now }

  unfoldable pub disable_owned : World → Config × Listing → Outcome Config × World
  unfolding update_rows
  disable_owned w (c, l) =
      if config_disabled c.status
      then (ok c, w)
      else unless_unreachable (tell_enabled false c l.panel_inbound_id w)
          (set_status ConfigStatus.disabled) c

  -- `disable_config`
  unfoldable pub disable_config : ℕ → ℕ → World → Outcome Config × World
  unfolding load_owned_config disable_owned
  disable_config config_id user w =
      when_ok (load_owned_config config_id user w.db) w (disable_owned w)

  unfoldable pub enable_owned : World → Config × Listing → Outcome Config × World
  unfolding update_rows
  enable_owned w (c, l) =
      if not (listing_active l.status)
      then (fail HttpError.listing_not_active, w)
      else if config_active c.status
      then (ok c, w)
      else unless_unreachable (tell_enabled true c l.panel_inbound_id w)
          (set_status ConfigStatus.active) c

  -- `enable_config`
  unfoldable pub enable_config : ℕ → ℕ → World → Outcome Config × World
  unfolding load_owned_config enable_owned
  enable_config config_id user w =
      when_ok (load_owned_config config_id user w.db) w (enable_owned w)

  unfoldable pub delete_owned : World → Config × Listing → Outcome Config × World
  unfolding update_rows
  delete_owned w (c, l) = unless_unreachable (tell_deleted c l.panel_inbound_id w) set_deleted c

  -- `delete_config`
  unfoldable pub delete_config : ℕ → ℕ → World → Outcome Config × World
  unfolding load_owned_config delete_owned
  delete_config config_id user w =
      when_ok (load_owned_config config_id user w.db) w (delete_owned w)

abbrev pub set_name : Option Text → Config → Config
set_name none c = c
set_name (some s) c = record c { name = s }

abbrev pub set_auto_disable : Option Bool → Config → Config
set_auto_disable none c = c
set_auto_disable (some b) c = record c { auto_disable_on_price_increase = b }

unfoldable pub checked_name : Option Text → Outcome (Option Text)
unfolding sanitize_name
checked_name none = ok none
checked_name (some raw) =
    let name = sanitize_name raw in
    if has_name name then ok (some name) else fail HttpError.invalid_name

-- The checks of `patch_config` and the assignment that they allow.
unfoldable pub check_patch : ℕ → ℕ → ConfigPatchIn → Db → Outcome (Config × (Config → Config))
unfolding load_owned_config checked_name
check_patch config_id user body db = do
  raise_if (not (is_patch_body body)) HttpError.invalid_body
  owned ← load_owned_config config_id user db
  name ← checked_name body.name
  ok (owned.0, λ c. set_auto_disable body.auto_disable_on_price_increase (set_name name c))

-- `patch_config`
unfoldable pub patch_config : ℕ → ℕ → ConfigPatchIn → World → Outcome Config × World
unfolding check_patch update_rows
patch_config config_id user body w =
    when_ok (check_patch config_id user body w.db) w
      (λ checked. let (c, f) = checked in (ok (f c), write_row f c.id w))
