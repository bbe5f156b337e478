-- ===== src/Withdrawals/Rules.antt =====
-- The rules of the auto-withdraw job that `put_auto_config` of app/api/routes/withdrawals.py saves.
use mathlib.Core.Path.{subst}
use abr_out.Prelude.{
  ℕ, ◌+◌, ◌*◌, ◌≤◌, List, [], ◌∷◌, Option, none, some, Bool, true, false, ◌==◌, leb, ◌≡◌, refl, not,
  ◌∙◌, inl, inr, arith, All, ==→eq, sym, ap, Bool-cases, if◌then◌else◌,
}
use abr_out.Prelude.Int.{ℤ, ◌≤ℤ◌}
use abr_out.Prelude.Rows.{first_row, exists_row, update_rows}
use abr_out.Models.{Db, AutoWithdrawalConfig, AutoWithdrawMode, AutoWithdrawAmountPolicy}
use abr_out.Http.{HttpError, ok, ◌>>=◌, >>=-ok, ok-injective, raise_if}
use abr_out.Payout.Client.{
  PayoutClient, PayoutSettings, AddressCheck, checksummed, address_error, config_error,
}
use abr_out.Payout.Auto.{hour, triggered}
use abr_out.Withdrawals.{
  AutoWithdrawIn, on_time, on_threshold, rule_of, get_auto_config, rule_row, overwrite, upsert,
  with_rules, checked_destination, is_interval, put_auto_config, checked_interval, at_least,
  first_run, mode_columns, fixed_column,
}

-- What the upsert leaves where this was found before.
abbrev stored : AutoWithdrawalConfig → Option AutoWithdrawalConfig → AutoWithdrawalConfig
stored values none = values
stored values (some old) = overwrite values old

module _ (values : AutoWithdrawalConfig) where
  overwritten :
      (rows : List AutoWithdrawalConfig)
      → exists_row (rule_of values.user_id) rows ≡ true
      → first_row
          (rule_of values.user_id)
          (update_rows (rule_of values.user_id) (overwrite values) rows)
        ≡ some (stored values (first_row (rule_of values.user_id) rows))
  unfolding first_row update_rows exists_row
  overwritten [] h = cc
  overwritten (r ∷ rows) h = elim (Bool-cases (r.user_id == values.user_id)) [
    | inl own ↦ rw own (rw own refl)
    | inr other ↦ rw other (rw other (overwritten rows (ground (arith, other, h))))
  ]

  absent :
      (rows : List AutoWithdrawalConfig)
      → exists_row (rule_of values.user_id) rows ≡ false
      → first_row (rule_of values.user_id) rows ≡ none
  unfolding first_row exists_row
  absent [] h = refl
  absent (r ∷ rows) h = ground (arith, absent rows)

  kept :
      (user : ℕ) (rows : List AutoWithdrawalConfig)
      → (user == values.user_id) ≡ false
      → first_row (rule_of user) (update_rows (rule_of values.user_id) (overwrite values) rows)
        ≡ first_row (rule_of user) rows
  unfolding first_row update_rows
  kept user [] h = refl
  kept user (r ∷ rows) h = elim (Bool-cases (r.user_id == values.user_id)) [
    | inl own ↦
        let e : (r.user_id == user) ≡ false = ground (arith, own, h) in
        rw own (rw e (kept user rows h))
    | inr other ↦ rw other (rw (kept user rows h) refl)
  ]

  upsert-stored :
      (rows : List AutoWithdrawalConfig)
      → first_row (rule_of values.user_id) (upsert values rows)
        ≡ some (stored values (first_row (rule_of values.user_id) rows))
  unfolding upsert first_row
  upsert-stored rows = elim (Bool-cases (exists_row (rule_of values.user_id) rows)) [
    | inl there ↦ rw (there, upsert) (overwritten rows there)
    | inr not_there ↦ rw (not_there, upsert) (rw (absent rows not_there) (ground arith))
  ]

  upsert-kept :
      (user : ℕ) (rows : List AutoWithdrawalConfig)
      → (user == values.user_id) ≡ false
      → first_row (rule_of user) (upsert values rows) ≡ first_row (rule_of user) rows
  unfolding upsert first_row
  upsert-kept user rows h = elim (Bool-cases (exists_row (rule_of values.user_id) rows)) [
    | inl there ↦ rw (there, upsert) (kept user rows h)
    | inr not_there ↦ rw (not_there, upsert) (ground (arith, h))
  ]

abbrev rows_of : Option AutoWithdrawalConfig → List AutoWithdrawalConfig
rows_of none = []
rows_of (some r) = r ∷ []

own_rule :
    (user : ℕ) (rows : List AutoWithdrawalConfig)
    → All (λ r. r.user_id ≡ user) (rows_of (first_row (rule_of user) rows))
unfolding first_row
own_rule user [] = tt
own_rule user (r ∷ rows) = elim (Bool-cases (r.user_id == user)) [
  | inl own ↦ rw own (==→eq r.user_id user own, tt)
  | inr other ↦ rw other (own_rule user rows)
]

-- What a rule holds that the route saves at this time.
pub record IsRule (client : PayoutClient) (settings : PayoutSettings) (now user : ℕ)
    (body : AutoWithdrawIn) (row : AutoWithdrawalConfig) : Type 0 where
  pub own : row.user_id ≡ user
  pub switched : row.enabled ≡ body.enabled
  pub destined : client.is_valid_address body.to_address ≡ checksummed row.to_address
  pub moded : row.mode ≡ body.mode
  pub policed : row.amount_policy ≡ body.amount_policy
  pub timed :
      body.mode ≡ AutoWithdrawMode.time
      → (h : ℕ) × (body.interval_hours ≡ some h)
        × (1 ≤ h)
        × (row.interval_hours ≡ some h)
        × (row.threshold_usd ≡ none)
        × (row.next_run_at ≡ (if body.enabled then some (now + h * hour) else none))
  pub thresholded :
      body.mode ≡ AutoWithdrawMode.threshold
      → (t : ℤ) × (body.threshold_usd ≡ some t)
        × (settings.withdrawal_min_usd ≤ℤ t)
        × (row.threshold_usd ≡ some t)
        × (row.interval_hours ≡ none)
        × (row.next_run_at ≡ none)
  pub paid :
      body.amount_policy ≡ AutoWithdrawAmountPolicy.fixed
      → (f : ℤ) × (body.fixed_amount_usd ≡ some f)
        × (settings.withdrawal_min_usd ≤ℤ f)
        × (row.fixed_amount_usd ≡ some f)
  pub whole : body.amount_policy ≡ AutoWithdrawAmountPolicy.full → row.fixed_amount_usd ≡ none

time_columns :
    (given interval : Option ℕ) (threshold : Option ℤ)
    → (checked_interval given >>= on_time) ≡ ok (interval, threshold)
    → (h : ℕ) × (given ≡ some h) × (1 ≤ h) × (interval ≡ some h) × (threshold ≡ none)
time_columns none interval threshold e = cc
time_columns (some h) interval threshold e = (h, refl, ground arith, ground arith, ground arith)

threshold_columns :
    (least : ℤ) (given : Option ℤ) (interval : Option ℕ) (threshold : Option ℤ)
    → (at_least least HttpError.threshold_too_low given >>= on_threshold) ≡ ok (interval, threshold)
    → (t : ℤ) × (given ≡ some t) × (least ≤ℤ t) × (threshold ≡ some t) × (interval ≡ none)
threshold_columns least none interval threshold e = cc
threshold_columns least (some t) interval threshold e =
    (t, refl, ground arith, ground arith, ground arith)

fixed_columns :
    (least : ℤ) (given fixed_amount : Option ℤ)
    → (at_least least HttpError.fixed_amount_too_low given >>= λ f. ok (some f)) ≡ ok fixed_amount
    → (f : ℤ) × (given ≡ some f) × (least ≤ℤ f) × (fixed_amount ≡ some f)
fixed_columns least none fixed_amount e = cc
fixed_columns least (some f) fixed_amount e = (f, refl, ground arith, ground arith)

first_run-eq :
    (now : ℕ) (on : Bool) (h : ℕ)
    → first_run now on AutoWithdrawMode.time (some h) ≡ (if on then some (now + h * hour) else none)
first_run-eq now true h = refl
first_run-eq now false h = refl

first_run-none :
    (now : ℕ) (on : Bool) (interval : Option ℕ)
    → first_run now on AutoWithdrawMode.threshold interval ≡ none
first_run-none now true interval = refl
first_run-none now false interval = refl

full_columns :
    (least : ℤ) (body : AutoWithdrawIn) (fixed_amount : Option ℤ)
    → fixed_column least AutoWithdrawAmountPolicy.full body ≡ ok fixed_amount
    → fixed_amount ≡ none
full_columns least body fixed_amount e = sym (ok-injective none fixed_amount e)

destination :
    (answer : AddressCheck) (address : ℕ)
    → checked_destination answer ≡ ok address
    → answer ≡ checksummed address
destination (checksummed a) address e = ap checksummed (ok-injective a address e)
destination address_error address e = cc
destination config_error address e = cc

module _ (client : PayoutClient) (settings : PayoutSettings) (now user : ℕ) (body : AutoWithdrawIn)
    (interval : Option ℕ) (threshold fixed_amount : Option ℤ) (address : ℕ)
    (moded : mode_columns settings.withdrawal_min_usd body.mode body ≡ ok (interval, threshold))
    (fixes : fixed_column settings.withdrawal_min_usd body.amount_policy body ≡ ok fixed_amount)
    (valid : checked_destination (client.is_valid_address body.to_address) ≡ ok address) where
  abbrev values : AutoWithdrawalConfig
  values = rule_row now user body interval threshold fixed_amount address

  values-IsRule : IsRule client settings now user body values
  unfolding rule_row
  values-IsRule = record {
    own = refl;
    switched = refl;
    destined = destination (client.is_valid_address body.to_address) address valid;
    moded = refl;
    policed = refl;
    timed = λ m.
        let (h, given, positive, set, free) = time_columns body.interval_hours interval threshold (
          subst
            (λ mode. mode_columns settings.withdrawal_min_usd mode body ≡ ok (interval, threshold))
            m moded) in
        (h, given, positive, set, free, rw (m, set) (first_run-eq now body.enabled h));
    thresholded = λ m.
        let (t, given, enough, set, free) =
          threshold_columns settings.withdrawal_min_usd body.threshold_usd interval threshold (
            subst
              (λ mode.
                mode_columns settings.withdrawal_min_usd mode body ≡ ok (interval, threshold))
              m moded) in
        (t, given, enough, set, free, rw (m, free) (first_run-none now body.enabled none));
    paid = λ p.
        let (f, given, enough, set) =
          fixed_columns settings.withdrawal_min_usd body.fixed_amount_usd fixed_amount (
            subst (λ policy. fixed_column settings.withdrawal_min_usd policy body ≡ ok fixed_amount)
              p fixes) in
        (f, given, enough, set);
    whole = λ p. full_columns settings.withdrawal_min_usd body fixed_amount (
        subst (λ policy. fixed_column settings.withdrawal_min_usd policy body ≡ ok fixed_amount) p
          fixes);
  }

  row-IsRule :
      (old : Option AutoWithdrawalConfig)
      → All (λ r. r.user_id ≡ user) (rows_of old)
      → IsRule client settings now user body (stored values old)
  unfolding rule_row
  row-IsRule none h = values-IsRule
  row-IsRule (some old) h =
      let r = values-IsRule in
      record {
        own = h.0;
        switched = r.switched;
        destined = r.destined;
        moded = r.moded;
        policed = r.policed;
        timed = r.timed;
        thresholded = r.thresholded;
        paid = r.paid;
        whole = r.whole;
      }

fires :
    (settings : PayoutSettings) (later due : ℕ) (row : AutoWithdrawalConfig) (balance : ℤ)
    → row.mode ≡ AutoWithdrawMode.time
    → row.next_run_at ≡ some due
    → triggered settings later row balance ≡ leb due later
unfolding triggered
fires settings later due row balance mode next = ground (arith, mode, next)

-- A user who saves a rule for automatic withdrawals has it from then on, with the mode, the policy
-- and the switch given, and with the checksummed form of the given address as its destination. On
-- time it stores the given interval, of at least an hour, no threshold and, if it is switched on, a
-- first run when the interval has passed; on a threshold it stores that given, of at least the least
-- withdrawal, no interval and no run; a fixed amount is the given one, of at least the least
-- withdrawal too, and a full one stores none. The rules of all other users stay as they are.
pub put_auto_config-IsRule :
    (client : PayoutClient) (settings : PayoutSettings) (now user : ℕ) (body : AutoWithdrawIn)
    (db : Db) {db' : Db}
    → put_auto_config client settings now user body db ≡ ok db'
    → ((row : AutoWithdrawalConfig) × (get_auto_config user db' ≡ some row)
        × IsRule client settings now user body row)
      × ((other : ℕ)
          → (other == user) ≡ false
          → get_auto_config other db' ≡ get_auto_config other db)
unfolding put_auto_config get_auto_config rule_row
put_auto_config-IsRule client settings now user body db {db'} h =
    let (checked, c, h₁) =
      >>=-ok (raise_if (not (is_interval body.interval_hours)) HttpError.invalid_body) _ db' h in
    let (columns, moded, h₂) =
      >>=-ok (mode_columns settings.withdrawal_min_usd body.mode body) _ db' h₁ in
    let (fixed_amount, fixes, h₃) =
      >>=-ok (fixed_column settings.withdrawal_min_usd body.amount_policy body) _ db' h₂ in
    let (address, valid, h₄) =
      >>=-ok (checked_destination (client.is_valid_address body.to_address)) _ db' h₃ in
    let v = rule_row now user body columns.0 columns.1 fixed_amount address in
    let saved : with_rules (upsert v db.auto_withdrawal_configs) db ≡ db' = ok-injective _ db' h₄ in
    let old = first_row (rule_of user) db.auto_withdrawal_configs in
    rw (← saved) (
      (
        stored v old,
        upsert-stored v db.auto_withdrawal_configs,
        row-IsRule client settings now user body columns.0 columns.1 fixed_amount address moded
            fixes valid old (own_rule user db.auto_withdrawal_configs),
      ),
      λ other ne. upsert-kept v other db.auto_withdrawal_configs ne,
    )

-- A rule on time that a user saves and switches on fires, whatever the balance, at every run of the
-- job from its interval on, and at none before it.
pub put_auto_config-fires :
    (client : PayoutClient) (settings : PayoutSettings) (now user : ℕ) (body : AutoWithdrawIn)
    (db : Db) {db' : Db}
    → body.enabled ≡ true
    → body.mode ≡ AutoWithdrawMode.time
    → put_auto_config client settings now user body db ≡ ok db'
    → (row : AutoWithdrawalConfig) × (h : ℕ) × (get_auto_config user db' ≡ some row)
      × (body.interval_hours ≡ some h)
      × ((later : ℕ) (balance : ℤ)
          → triggered settings later row balance ≡ leb (now + h * hour) later)
unfolding triggered
put_auto_config-fires client settings now user body db on timed h =
    let ((row, saved, r), others) = put_auto_config-IsRule client settings now user body db h in
    let (hours, given, positive, set, free, next) = r.timed timed in
    let due : row.next_run_at ≡ some (now + hours * hour) = next ∙ rw on refl in
    (
      row,
      hours,
      saved,
      given,
      λ later balance. fires settings later (now + hours * hour) row balance (r.moded ∙ timed) due,
    )
