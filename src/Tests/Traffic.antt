-- ===== src/Tests/Traffic.antt =====
-- Billing and the poll cycle on the sample.
use abr_out.Prelude.{ℕ, ◌+◌, ◌≤◌, List, Bool, [], ◌∷◌, some, true, false, ◌≡◌, refl}
use abr_out.Prelude.Rows.{first_row, select, sum_rows, unique_on, exists_row}
use abr_out.Prelude.Rounding.{round_half_even}
use abr_out.Prelude.Text.{same_text}
use abr_out.Models.{Fraction}
use abr_out.Wallet.{satisfies_constraints}
use abr_out.Quota.{used_bytes}
use abr_out.Billing.{
  Cycle, gb_of, seller_credit, buyer_debit, bill_client, client_delta, has_email, next_anchor,
  set_snapshot_anchor,
}
use abr_out.Billing.Turns.{Turn, turns_from, due, turns_from-meters, turns_from-charges_once}
use abr_out.Billing.Metering.{bill_client-meters, double_poll-charges_twice, billable}
use abr_out.Poll.{Run, poll_traffic_once}
use abr_out.Poll.Invariant.{IsSound, poll_traffic_once-IsSound}
use abr_out.Tests.Sample.{listing, config, market, client_traffic, panel, world_of}

abbrev share : ℕ → ℕ → ℕ → ℕ
share delta up total = 0

abbrev commission : Fraction
commission = record { num = 1; den = 10 }

abbrev cycle : Cycle
cycle = record {
  cycle_id = 1;
  sampled_at = 0;
  commission_pct = commission;
  reset_attempted = true;
  reset_succeeded = true;
}

abbrev next_cycle : Cycle
next_cycle = record cycle { cycle_id = 2 }

abbrev run : Run
run = record {
  share = share;
  panel = panel;
  meanwhile = λ lid db. db;
  db_raises = λ lid. false;
  settings = record { commission_pct = commission; traffic_reset_enabled = true };
  cycle_id = 1;
  sampled_at = 0;
}

-- 2 GiB at half a dollar, with ten percent on top.
credit_of_two_gb : seller_credit (gb_of 2_147_483_648) 5_000 ≡ 100_000_000
unfolding seller_credit gb_of round_half_even
credit_of_two_gb = refl

debit_of_two_gb : buyer_debit (gb_of 2_147_483_648) 5_000 commission ≡ 110_000_000
unfolding buyer_debit gb_of round_half_even
debit_of_two_gb = refl

known : first_row (has_email listing (1 ∷ [])) market.configs ≡ some (config 1 20)
unfolding first_row same_text
known = refl

abbrev turn : Bool → Bool → ℕ → ℕ → Turn
turn reset written bytes late = record {
  cycle = record cycle { reset_succeeded = reset };
  bytes = bytes;
  late = late;
  written = written;
}

-- A reset that fails, one after some late traffic, and a stretch that is too short to bill.
abbrev three_turns : List Turn
three_turns =
    turn false true 700_000 0 ∷ turn true true 600_000 9_000 ∷ turn true true 300_000 0 ∷ []

turns_from-meters_example :
    used_bytes (turns_from share listing (1 ∷ []) 0 three_turns market) 1
    ≡ used_bytes market 1 + due 0 three_turns
turns_from-meters_example =
    turns_from-meters share listing (1 ∷ []) three_turns 0 0 market known refl
      (refl, (refl, (refl, tt)))

due_of_three : due 0 three_turns ≡ 1_300_000
due_of_three = refl

-- The first bill is rolled back without a reset, the second with one.
abbrev rolled_back : List Turn
rolled_back =
    turn false false 700_000 0 ∷ turn true false 600_000 0 ∷ turn false true 800_000 0 ∷ []

turns_from-charges_once_example :
    used_bytes (turns_from share listing (1 ∷ []) 0 rolled_back market) 1
    ≤ used_bytes market 1 + due 0 rolled_back
turns_from-charges_once_example =
    turns_from-charges_once share listing (1 ∷ []) rolled_back 0 0 market known refl

bill_client-meters_example :
    let (db', _) = bill_client share cycle listing (client_traffic 1) (market, false) in
    (used_bytes db' 1
      ≡ used_bytes market 1 + billable (client_delta (config 1 20) (client_traffic 1)))
    × (first_row (has_email listing (1 ∷ [])) db'.configs
        ≡ some (set_snapshot_anchor (next_anchor true (0 + 2_147_483_648)) (config 1 20)))
bill_client-meters_example =
    bill_client-meters share cycle listing (client_traffic 1) market false known

double_poll-charges_twice_example :
    used_bytes
      (bill_client share next_cycle listing
        (client_traffic 1)
        (bill_client share cycle listing (client_traffic 1) (market, false))).0
      1
    ≡ used_bytes market 1
      + billable (client_delta (config 1 20) (client_traffic 1))
      + billable (0 + 2_147_483_648)
double_poll-charges_twice_example =
    double_poll-charges_twice share cycle next_cycle listing (client_traffic 1) market false known
      refl

market-IsSound : IsSound market
unfolding satisfies_constraints unique_on exists_row select sum_rows
market-IsSound = record { books = record { credits = refl; debits = refl }; unique = refl }

poll_traffic_once-IsSound_example : IsSound (poll_traffic_once run (world_of market)).db
poll_traffic_once-IsSound_example =
    poll_traffic_once-IsSound run (λ lid db s. s) (world_of market) market-IsSound
