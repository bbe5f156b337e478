-- ===== src/Enforcement/Solvent.antt =====
-- A run of the balance job as two UPDATEs, and what holds of the configs after it.
use abr_out.Prelude.{ℕ, [], true, false, ◌&&◌, is_some, ◌≡◌, refl, sym, ap, ◌∙◌, arith, All}
use abr_out.Prelude.Rows.{update_rows}
use abr_out.Prelude.Keyed.{IsKey, IsKey-update_rows, All-update_rows, All-always}
use abr_out.Models.{Db, Config}
use abr_out.Outside.{World, Panel}
use abr_out.Join.{listing_of}
use abr_out.Enforcement.{
  at_or_below_zero, is_active, is_auto_disabled, with_configs, auto_disable, reenable, comes_back,
  disable_buyers, reenable_buyers, buyers_where, run_passes, enforce_balances_once, bill_before_cut,
}
use abr_out.Enforcement.Sweep.{sweep-refines}
use abr_out.Enforcement.Passes.{
  is_broke, is_recovered, disable_buyers-db, reenable_buyers-db, announce_changes-db,
}
use mathlib.Core.Path.{subst}

-- The two UPDATEs.
abbrev pub after_disable : ℕ → Db → Db
after_disable now db = with_configs db (update_rows (is_broke db) (auto_disable now) db.configs)

abbrev pub after_reenable : Panel → Db → Db
after_reenable panel db = with_configs db (update_rows (is_recovered panel db) reenable db.configs)

module _ (panel : Panel) (poll : World → World) (now : ℕ) where
  first_pass :
      (w : World)
      → IsKey (λ c. c.id) w.db.configs
      → (disable_buyers now (buyers_where is_active w.db.configs) (w, [])).0.db
        ≡ after_disable now w.db
  first_pass w key =
      disable_buyers-db now (buyers_where is_active w.db.configs) w []
      ∙ ap (with_configs w.db) (
          sweep-refines is_active (at_or_below_zero w.db.wallet_transactions) w.db.listings
            (λ r. true) (auto_disable now) (λ a. refl) (λ a. refl) w.db.configs key)

  second_pass :
      (w : World)
      → IsKey (λ c. c.id) w.db.configs
      → (reenable_buyers panel (buyers_where is_auto_disabled w.db.configs) (w, [])).0.db
        ≡ after_reenable panel w.db
  second_pass w key =
      reenable_buyers-db panel (buyers_where is_auto_disabled w.db.configs) w []
      ∙ ap (with_configs w.db) (
          sweep-refines is_auto_disabled _ w.db.listings (comes_back panel) reenable (λ a. refl)
            (λ a. refl) w.db.configs key)

  run_passes-db :
      (w : World)
      → IsKey (λ c. c.id) w.db.configs
      → (run_passes panel poll now w).db ≡ after_reenable panel (after_disable now w.db)
  unfolding run_passes
  run_passes-db w key =
      let s = disable_buyers now (buyers_where is_active w.db.configs) (w, []) in
      let t = reenable_buyers panel (buyers_where is_auto_disabled s.0.db.configs) (s.0, []) in
      announce_changes-db s.1 t.1 t.0
      ∙ second_pass s.0 (
          subst (λ d. IsKey (λ c. c.id) d.configs) (sym (first_pass w key))
            (IsKey-update_rows (λ c. c.id) (is_broke w.db) (auto_disable now) (λ a. refl)
              w.db.configs key))
      ∙ ap (after_reenable panel) (first_pass w key)

  -- After the poll that may come first, a run of the balance job is two UPDATEs of the configs and
  -- changes nothing else: the active configs, with their listing, of buyers at or below zero are
  -- disabled and stamped, and then the disabled and stamped configs of buyers above zero, whose
  -- listing is active or pending and which the panel enables, are active again with no stamp. The
  -- ids of the configs are a key after that poll.
  pub enforce_balances-refines :
      (w : World)
      → IsKey (λ c. c.id) (bill_before_cut panel poll now w).db.configs
      → (enforce_balances_once panel poll now w).db
        ≡ after_reenable panel (after_disable now (bill_before_cut panel poll now w).db)
  unfolding enforce_balances_once
  enforce_balances-refines w key = run_passes-db (bill_before_cut panel poll now w) key

-- The config is not active, or has no listing, or its buyer's balance is positive.
abbrev pub IsSolvent : Db → Config → Type 0
IsSolvent db c =
    (is_active c
      && is_some (listing_of db.listings c)
      && at_or_below_zero db.wallet_transactions c.buyer_user_id)
    ≡ false

disabled-IsSolvent : (now : ℕ) (db : Db) → All (IsSolvent db) (after_disable now db).configs
disabled-IsSolvent now db =
    All-update_rows {P = λ c. Unit {0}} (IsSolvent db) (is_broke db) (auto_disable now) db.configs
      (λ c _. ground arith) (All-always db.configs (λ c. tt))

reenabled-IsSolvent :
    (panel : Panel) (db : Db)
    → All (IsSolvent db) db.configs
    → All (IsSolvent db) (after_reenable panel db).configs
reenabled-IsSolvent panel db h =
    All-update_rows (IsSolvent db) (is_recovered panel db) reenable db.configs
      (λ c s. ground (arith, s)) h

-- After a run of the balance job, every active config that has its listing belongs to a buyer whose
-- balance is positive, whatever the panel answered. The ids of the configs are a key.
pub enforce_balances-IsSolvent :
    (panel : Panel) (poll : World → World) (now : ℕ) (w : World)
    → IsKey (λ c. c.id) (bill_before_cut panel poll now w).db.configs
    → let db = (enforce_balances_once panel poll now w).db in All (IsSolvent db) db.configs
enforce_balances-IsSolvent panel poll now w key =
    let db = (bill_before_cut panel poll now w).db in
    subst (λ d. All (IsSolvent d) d.configs) (sym (enforce_balances-refines panel poll now w key))
      (reenabled-IsSolvent panel (after_disable now db) (disabled-IsSolvent now db))
