-- ===== src/Worker.antt =====
-- The balance job with the poll that it calls: app/worker/jobs/enforce_balance.py imports
-- `poll_traffic_once` of app/worker/jobs/poll_traffic.py.
use abr_out.Prelude.{ℕ, [], List, ◌≡◌, ◌∙◌, sym, ap, inl, inr, Bool-cases}
use mathlib.Core.Path.{subst}
use abr_out.Models.{Db, Config}
use abr_out.Outside.{World}
use abr_out.Poll.{Run, poll_traffic_once}
use abr_out.Poll.Invariant.{IsSound, poll_traffic_once-IsSound, configs-IsSound}
use abr_out.Enforcement.{
  enforce_balances_once, bill_before_cut, run_passes, disable_buyers, reenable_buyers, buyers_where,
  is_active, is_auto_disabled, with_configs, has_rows, select_buyers_at_or_below_zero,
}
use abr_out.Enforcement.Passes.{
  disable_buyers-db, reenable_buyers-db, announce_changes-db, second_sweep,
}

-- `enforce_balances_once` with its poll.
abbrev pub balance_job : Run → ℕ → World → World
balance_job run now w = enforce_balances_once run.panel (poll_traffic_once run) now w

module _ (run : Run) (now : ℕ) where
  run_passes_tables :
      (w : World)
      → (cs : List Config) × ((run_passes run.panel (poll_traffic_once run) now w).db
          ≡ with_configs w.db cs)
  unfolding run_passes
  run_passes_tables w =
      let s = disable_buyers now (buyers_where is_active w.db.configs) (w, []) in
      let t = reenable_buyers run.panel (buyers_where is_auto_disabled s.0.db.configs) (s.0, []) in
      let first = disable_buyers-db now (buyers_where is_active w.db.configs) w [] in
      (
        _,
        announce_changes-db s.1 t.1 t.0
            ∙ reenable_buyers-db run.panel (buyers_where is_auto_disabled s.0.db.configs) s.0 []
            ∙ ap
                (λ d.
                  with_configs d
                    (second_sweep run.panel s.0.db (buyers_where is_auto_disabled s.0.db.configs)))
                first,
      )

  module _ (others : (lid : ℕ) (db : Db) → IsSound db → IsSound (run.meanwhile lid db)) where
    -- The balance job, the poll before it included, keeps the books of the usage balanced, and the
    -- keys of the ledger and the withdrawals, the usage cycles, the ports and the inbounds unique,
    -- if what other processes commit during the poll does.
    pub balance_job-IsSound : (w : World) → IsSound w.db → IsSound (balance_job run now w).db
    unfolding enforce_balances_once bill_before_cut
    balance_job-IsSound w s =
        let billed : IsSound (bill_before_cut run.panel (poll_traffic_once run) now w).db =
          elim (Bool-cases (has_rows (select_buyers_at_or_below_zero w.db))) [
            | inl some_broke ↦ rw some_broke (poll_traffic_once-IsSound run others w s)
            | inr none_broke ↦ rw none_broke s
          ] in
        let passed = run_passes_tables (bill_before_cut run.panel (poll_traffic_once run) now w) in
        subst IsSound (sym passed.1) (configs-IsSound _ passed.0 billed)
