-- ===== src/Tests/Enforcing.antt =====
-- The quota job and the balance job on the sample: both configs are active, buyer 21 has no money.
use abr_out.Prelude.{◌≡◌, refl, All}
use abr_out.Prelude.Rows.{update_rows, unique_on, exists_row, sum_rows}
use abr_out.Prelude.Keyed.{IsKey}
use abr_out.Outside.{World}
use abr_out.Prelude.Int.{◌+ℤ◌}
use abr_out.Wallet.{get_balance}
use abr_out.Quota.{enforce_quotas_once}
use abr_out.Quota.Enforced.{enforce_quotas-refines, is_spent}
use abr_out.Models.{ConfigStatus}
use abr_out.Enforcement.{enforce_balances_once, bill_before_cut}
use abr_out.Enforcement.Solvent.{
  after_disable, after_reenable, IsSolvent, enforce_balances-refines, enforce_balances-IsSolvent,
}
use abr_out.Tests.Sample.{market, panel, world_of}

config_ids : IsKey (λ c. c.id) market.configs
unfolding unique_on exists_row
config_ids = refl

enforce_quotas-refines_example : (enforce_quotas_once (world_of market)).db ≡ record market {
  configs =
      update_rows
        (is_spent market)
        (λ c. record c { status = ConfigStatus.disabled })
        market.configs;
}
enforce_quotas-refines_example = enforce_quotas-refines (world_of market) config_ids

-- The poll that comes first changes nothing here.
abbrev poll : World → World
poll w = w

billed_ids : IsKey (λ c. c.id) (bill_before_cut panel poll 9 (world_of market)).db.configs
unfolding bill_before_cut unique_on exists_row get_balance sum_rows ◌+ℤ◌
billed_ids = refl

enforce_balances-refines_example :
    (enforce_balances_once panel poll 9 (world_of market)).db
    ≡ after_reenable panel (after_disable 9 (bill_before_cut panel poll 9 (world_of market)).db)
enforce_balances-refines_example =
    enforce_balances-refines panel poll 9 (world_of market) billed_ids

enforce_balances-IsSolvent_example :
    let db = (enforce_balances_once panel poll 9 (world_of market)).db in
    All (IsSolvent db) db.configs
enforce_balances-IsSolvent_example =
    enforce_balances-IsSolvent panel poll 9 (world_of market) billed_ids
