-- ===== src/Enforcement/Passes.antt =====
-- What the two passes of the balance job do to the tables.
use abr_out.Prelude.{
  ℕ, List, [], ◌∷◌, arith, Bool, true, not, ◌&&◌, ◌==◌, ◌≡◌, refl, ap, ◌∙◌, inl, inr, if◌then◌else◌,
  Bool-cases,
}
use abr_out.Prelude.Rows.{update_rows}
use abr_out.Prelude.Keyed.{update_each}
use abr_out.Models.{Db, Config, Listing}
use abr_out.Outside.{World, Panel, Message}
use abr_out.Join.{join_listing, selected}
use abr_out.Quota.Enforced.{disable_on_panel-db}
use abr_out.Enforcement.{
  at_or_below_zero, is_active, is_auto_disabled, with_configs, auto_disable, active_of, disable_row,
  disable_rows, disable_buyer, disable_buyers, reenable, comes_back, reenable_row, reenable_rows,
  reenable_buyer, reenable_buyers, auto_disabled_of, notify_each, announce_changes,
}
use abr_out.Enforcement.Sweep.{sweep_buyer, sweep}

-- An active config, with its listing, of a buyer whose balance is zero or less.
abbrev pub is_broke : Db → Config → Bool
is_broke db c =
    at_or_below_zero db.wallet_transactions c.buyer_user_id
    && selected is_active db.listings (λ r. true) c

-- A config that this job disabled, of a buyer whose balance is positive, whose listing is on sale
-- and which the panel enables.
abbrev pub is_recovered : Panel → Db → Config → Bool
is_recovered panel db c =
    not (at_or_below_zero db.wallet_transactions c.buyer_user_id)
    && selected is_auto_disabled db.listings (comes_back panel) c

disable_rows-db :
    (now : ℕ) (rs : List (Config × Listing)) (w : World)
    → (disable_rows now rs w).db
      ≡ with_configs w.db
          (update_each (λ c. c.id) (auto_disable now) (λ r. r.0.id) (λ r. true) rs w.db.configs)
unfolding disable_rows update_each disable_row
disable_rows-db now [] w = refl
disable_rows-db now ((c, l) ∷ rs) w =
    disable_rows-db now rs (disable_row now (c, l) w)
    ∙ ap
        (λ d. with_configs d (
          update_each (λ x. x.id) (auto_disable now) (λ r. r.0.id) (λ r. true) rs
            (update_rows (λ x. x.id == c.id) (auto_disable now) d.configs)))
        (disable_on_panel-db c l w)

module _ (now : ℕ) where
  abbrev pub first_sweep : Db → List ℕ → List Config
  first_sweep db bs =
      sweep is_active (at_or_below_zero db.wallet_transactions) db.listings (λ r. true)
        (auto_disable now) bs db.configs

  disable_buyer-db :
      (b : ℕ) (w : World) (us : List ℕ)
      → (disable_buyer now b (w, us)).0.db
        ≡ with_configs w.db (
            sweep_buyer is_active
              (at_or_below_zero w.db.wallet_transactions)
              w.db.listings
              (λ r. true)
              (auto_disable now)
              b
              w.db.configs)
  unfolding disable_buyer sweep_buyer
  disable_buyer-db b w us = elim (Bool-cases (at_or_below_zero w.db.wallet_transactions b)) [
    | inl hit ↦
        rw hit (disable_rows-db now (join_listing (active_of b) w.db.listings w.db.configs) w)
    | inr miss ↦ rw miss
  ]

  pub disable_buyers-db :
      (bs : List ℕ) (w : World) (us : List ℕ)
      → (disable_buyers now bs (w, us)).0.db ≡ with_configs w.db (first_sweep w.db bs)
  unfolding disable_buyers sweep
  disable_buyers-db [] w us = refl
  disable_buyers-db (b ∷ bs) w us =
      let s = disable_buyer now b (w, us) in
      disable_buyers-db bs s.0 s.1
      ∙ ap (λ d. with_configs d (first_sweep d bs)) (disable_buyer-db b w us)

module _ (panel : Panel) where
  reenable_row-db :
      (c : Config) (l : Listing) (w : World) (changed : Bool)
      → (reenable_row panel (c, l) (w, changed)).0.db
        ≡ with_configs w.db (
            if comes_back panel (c, l)
            then update_rows (λ x. x.id == c.id) reenable w.db.configs
            else w.db.configs)
  unfolding reenable_row
  reenable_row-db c l w changed = ground arith

  reenable_rows-db :
      (rs : List (Config × Listing)) (w : World) (changed : Bool)
      → (reenable_rows panel rs (w, changed)).0.db
        ≡ with_configs w.db
            (update_each (λ c. c.id) reenable (λ r. r.0.id) (comes_back panel) rs w.db.configs)
  unfolding reenable_rows update_each
  reenable_rows-db [] w changed = refl
  reenable_rows-db ((c, l) ∷ rs) w changed =
      let s = reenable_row panel (c, l) (w, changed) in
      reenable_rows-db rs s.0 s.1
      ∙ ap
          (λ d.
            with_configs d
              (update_each (λ x. x.id) reenable (λ r. r.0.id) (comes_back panel) rs d.configs))
          (reenable_row-db c l w changed)

  abbrev pub second_sweep : Db → List ℕ → List Config
  second_sweep db bs =
      sweep is_auto_disabled (λ b. not (at_or_below_zero db.wallet_transactions b)) db.listings
        (comes_back panel) reenable bs db.configs

  reenable_buyer-db :
      (b : ℕ) (w : World) (us : List ℕ)
      → (reenable_buyer panel b (w, us)).0.db
        ≡ with_configs w.db (
            sweep_buyer is_auto_disabled
              (λ u. not (at_or_below_zero w.db.wallet_transactions u))
              w.db.listings
              (comes_back panel)
              reenable
              b
              w.db.configs)
  unfolding reenable_buyer sweep_buyer
  reenable_buyer-db b w us = elim (Bool-cases (at_or_below_zero w.db.wallet_transactions b)) [
    | inl poor ↦ rw poor
    | inr rich ↦
        rw rich
          (reenable_rows-db (join_listing (auto_disabled_of b) w.db.listings w.db.configs) w _)
  ]

  pub reenable_buyers-db :
      (bs : List ℕ) (w : World) (us : List ℕ)
      → (reenable_buyers panel bs (w, us)).0.db ≡ with_configs w.db (second_sweep w.db bs)
  unfolding reenable_buyers sweep
  reenable_buyers-db [] w us = refl
  reenable_buyers-db (b ∷ bs) w us =
      let s = reenable_buyer panel b (w, us) in
      reenable_buyers-db bs s.0 s.1
      ∙ ap (λ d. with_configs d (second_sweep d bs)) (reenable_buyer-db b w us)

notify_each-db : (m : Message) (us : List ℕ) (w : World) → (notify_each m us w).db ≡ w.db
unfolding notify_each
notify_each-db m [] w = refl
notify_each-db m (u ∷ us) w = notify_each-db m us w

pub announce_changes-db : (us vs : List ℕ) (w : World) → (announce_changes us vs w).db ≡ w.db
unfolding announce_changes
announce_changes-db us vs w =
    notify_each-db Message.balance_recovered vs _
    ∙ notify_each-db Message.balance_exhausted us _
    ∙ ground arith
