-- ===== src/Enforcement.antt =====
-- app/worker/jobs/enforce_balance.py: the configs of buyers without money are disabled, and those
-- that were disabled for that reason come back when the balance is positive again. The poll that
-- may come first is a parameter, so that this file does not depend on how it bills. Log lines are
-- left out, and so is a failure of the database.
pub mod Sweep
pub mod Passes
pub mod Solvent
use abr_out.Prelude.{
  ℕ, List, [], ◌∷◌, Option, none, some, Bool, true, false, not, ◌&&◌, ◌==◌, is_some, if◌then◌else◌,
}
use abr_out.Prelude.Int.{ℤ, pos, leb_ℤ}
use abr_out.Prelude.Rows.{select, update_rows, distinct}
use abr_out.Models.{
  Db, Config, ConfigStatus, Listing, ListingStatus, WalletTransaction, Currency, config_active,
  config_disabled,
}
use abr_out.Outside.{succeeded, World, Panel, Effect, Message, emit}
use abr_out.Wallet.{get_balance}
use abr_out.Join.{join_listing}
use abr_out.Quota.{disable_on_panel}
use mathlib.Core.List.{map}

-- `balance <= Decimal("0")`
abbrev pub at_or_below_zero : List WalletTransaction → ℕ → Bool
at_or_below_zero ledger buyer = leb_ℤ (get_balance ledger buyer Currency.usd) (pos 0)

-- `select(Config.buyer_user_id).where(…).distinct()`
unfoldable pub buyers_where : (Config → Bool) → List Config → List ℕ
unfolding select distinct
buyers_where p cs = distinct (map (λ c. c.buyer_user_id) (select p cs))

abbrev pub is_active : Config → Bool
is_active c = config_active c.status

abbrev pub is_auto_disabled : Config → Bool
is_auto_disabled c = config_disabled c.status && is_some c.auto_disabled_at

-- `_select_buyers_at_or_below_zero`
unfoldable pub select_buyers_at_or_below_zero : Db → List ℕ
unfolding select buyers_where
select_buyers_at_or_below_zero db =
    select (at_or_below_zero db.wallet_transactions) (buyers_where is_active db.configs)

abbrev pub with_configs : Db → List Config → Db
with_configs db cs = record db { configs = cs }

abbrev pub write_config : (Config → Config) → ℕ → World → World
write_config f id w = record w {
  db = with_configs w.db (update_rows (λ x. x.id == id) f w.db.configs);
}

-- Pass 1.
abbrev pub auto_disable : ℕ → Config → Config
auto_disable now c = record c { status = ConfigStatus.disabled; auto_disabled_at = some now }

unfoldable pub disable_row : ℕ → Config × Listing → World → World
unfolding disable_on_panel update_rows
disable_row now (c, l) w = write_config (auto_disable now) c.id (disable_on_panel c l w)

unfoldable pub disable_rows : ℕ → List (Config × Listing) → World → World
unfolding disable_row
disable_rows now [] w = w
disable_rows now (r ∷ rs) w = disable_rows now rs (disable_row now r w)

abbrev pub active_of : ℕ → Config → Bool
active_of buyer c = c.buyer_user_id == buyer && is_active c

abbrev pub has_rows {ℓ} : {A : Type ℓ} → List A → Bool
has_rows [] = false
has_rows (x ∷ xs) = true

unfoldable pub disable_buyer : ℕ → ℕ → World × List ℕ → World × List ℕ
unfolding join_listing disable_rows
disable_buyer now buyer (w, users) =
    let rows = join_listing (active_of buyer) w.db.listings w.db.configs in
    if at_or_below_zero w.db.wallet_transactions buyer
    then (disable_rows now rows w, if has_rows rows then buyer ∷ users else users)
    else (w, users)

unfoldable pub disable_buyers : ℕ → List ℕ → World × List ℕ → World × List ℕ
unfolding disable_buyer
disable_buyers now [] s = s
disable_buyers now (b ∷ bs) s = disable_buyers now bs (disable_buyer now b s)

-- Pass 2.
abbrev pub reenable : Config → Config
reenable c = record c { status = ConfigStatus.active; auto_disabled_at = none }

abbrev pub sellable : ListingStatus → Bool
sellable ListingStatus.active = true
sellable ListingStatus.pending = true
sellable _ = false

abbrev pub auto_disabled_of : ℕ → Config → Bool
auto_disabled_of buyer c = c.buyer_user_id == buyer && is_auto_disabled c

module _ (panel : Panel) where
  abbrev pub enabled_on_panel : Config → Option ℕ → Bool
  enabled_on_panel c none = true
  enabled_on_panel c (some inbound) =
      succeeded (panel.update_client_enabled inbound c.panel_client_uuid c.panel_client_email true)

  abbrev pub ask_panel : Config → Option ℕ → World → World
  ask_panel c none w = w
  ask_panel c (some inbound) w =
      emit (Effect.set_enabled inbound c.panel_client_uuid c.panel_client_email true) w

  -- The row comes back if its listing is on sale and the panel agrees.
  abbrev pub comes_back : Config × Listing → Bool
  comes_back (c, l) = sellable l.status && enabled_on_panel c l.panel_inbound_id

  unfoldable pub reenable_row : Config × Listing → World × Bool → World × Bool
  unfolding update_rows
  reenable_row (c, l) (w, changed) =
      if not (sellable l.status)
      then (w, changed)
      else (let w' = ask_panel c l.panel_inbound_id w in
          if enabled_on_panel c l.panel_inbound_id
          then (write_config reenable c.id w', true)
          else (w', changed))

  unfoldable pub reenable_rows : List (Config × Listing) → World × Bool → World × Bool
  unfolding reenable_row
  reenable_rows [] s = s
  reenable_rows (r ∷ rs) s = reenable_rows rs (reenable_row r s)

  unfoldable pub reenable_buyer : ℕ → World × List ℕ → World × List ℕ
  unfolding join_listing reenable_rows
  reenable_buyer buyer (w, users) =
      let rows = join_listing (auto_disabled_of buyer) w.db.listings w.db.configs in
      let (w', changed) = reenable_rows rows (w, false) in
      if at_or_below_zero w.db.wallet_transactions buyer
      then (w, users)
      else (w', if changed then buyer ∷ users else users)

  unfoldable pub reenable_buyers : List ℕ → World × List ℕ → World × List ℕ
  unfolding reenable_buyer
  reenable_buyers [] s = s
  reenable_buyers (b ∷ bs) s = reenable_buyers bs (reenable_buyer b s)

unfoldable pub notify_each : Message → List ℕ → World → World
notify_each m [] w = w
notify_each m (u ∷ us) w = emit (Effect.message u m) (notify_each m us w)

-- The restart of Xray where somebody was disabled, and the messages.
unfoldable pub announce_changes : List ℕ → List ℕ → World → World
unfolding notify_each
announce_changes disabled reenabled w =
    let w' = if has_rows disabled then emit Effect.restart_xray w else w in
    notify_each Message.balance_recovered reenabled
      (notify_each Message.balance_exhausted disabled w')

-- `enforce_balances_once`
module _ (panel : Panel) (poll_traffic_once : World → World) (now : ℕ) where
  -- The extra poll, so that what was used since the last one is billed before the cut.
  unfoldable pub bill_before_cut : World → World
  unfolding select_buyers_at_or_below_zero
  bill_before_cut w =
      if has_rows (select_buyers_at_or_below_zero w.db) then poll_traffic_once w else w

  unfoldable pub run_passes : World → World
  unfolding buyers_where disable_buyers reenable_buyers announce_changes
  run_passes w =
      let (w₁, disabled) = disable_buyers now (buyers_where is_active w.db.configs) (w, []) in
      let buyers = buyers_where is_auto_disabled w₁.db.configs in
      let (w₂, reenabled) = reenable_buyers panel buyers (w₁, []) in
      announce_changes disabled reenabled w₂

  unfoldable pub enforce_balances_once : World → World
  unfolding bill_before_cut run_passes
  enforce_balances_once w = run_passes (bill_before_cut w)
