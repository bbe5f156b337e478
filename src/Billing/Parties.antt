-- ===== src/Billing/Parties.antt =====
-- Whose money a bill moves.
use abr_out.Prelude.{
  ℕ, ◌+◌, List, [], ◌∷◌, some, Bool, false, ◌&&◌, ◌≡◌, ◌≢◌, refl, sym, ◌∙◌, inl, inr, arith, ◌==◌,
  All, Bool-cases, Option-cases,
}
use abr_out.Prelude.Rows.{first_row, update_rows}
use abr_out.Prelude.Text.{Text}
use abr_out.Prelude.Keyed.{All-update_rows}
use mathlib.Core.Path.{subst}
use abr_out.Models.{Db, Config, Listing, Currency, config_active}
use abr_out.Outside.{ClientTraffic, InboundSnapshot}
use abr_out.Wallet.{usd_of}
use abr_out.Wallet.Balance.{get_balance-cons}
use abr_out.Billing.{
  Cycle, credit_txn, debit_txn, record_outbound, record_config, bill_seller, bill_config,
  bill_client, bill_clients, bill_inbound, has_email, client_delta, outbound_delta,
  set_snapshot_anchor, next_anchor,
}

-- The config is no active config of the listing that belongs to the user.
abbrev pub IsStranger : ℕ → Listing → Config → Type 0
IsStranger user l c =
    (c.listing_id == l.id && config_active c.status && c.buyer_user_id == user) ≡ false

first_row-IsStranger :
    (user : ℕ) (l : Listing) (email : Text) (cs : List Config) (cfg : Config)
    → All (IsStranger user l) cs
    → first_row (has_email l email) cs ≡ some cfg
    → cfg.buyer_user_id ≢ user
unfolding first_row
first_row-IsStranger user l email [] cfg h e = cc
first_row-IsStranger user l email (x ∷ xs) cfg h e = elim (Bool-cases (has_email l email x)) [
  | inl hit ↦ ground (arith, h.0)
  | inr miss ↦ first_row-IsStranger user l email xs cfg h.1 (ground arith)
]

module _ (share : ℕ → ℕ → ℕ → ℕ) (c : Cycle) (l : Listing) (user : ℕ) where
  bill_seller-other :
      (snap : InboundSnapshot) (db : Db)
      → l.seller_user_id ≢ user
      → usd_of (bill_seller share c l snap db).0 user ≡ usd_of db user
  unfolding bill_seller record_outbound credit_txn
  bill_seller-other snap db ne = ground (
    arith,
    get_balance-cons (credit_txn c l (outbound_delta l snap)) db.wallet_transactions user
        Currency.usd,
  )

  bill_seller-configs :
      (snap : InboundSnapshot) (db : Db) → (bill_seller share c l snap db).0.configs ≡ db.configs
  unfolding bill_seller record_outbound
  bill_seller-configs snap db = ground arith

  bill_config-configs :
      (ct : ClientTraffic) (cfg : Config) (s : Db × Bool)
      → (bill_config share c l ct cfg s).0.configs
        ≡ update_rows
            (λ x. x.id == cfg.id)
            (set_snapshot_anchor (next_anchor c.reset_succeeded (ct.up + ct.down)))
            s.0.configs
  unfolding bill_config record_config
  bill_config-configs ct cfg s = ground arith

  bill_client-other :
      (ct : ClientTraffic) (s : Db × Bool)
      → All (IsStranger user l) s.0.configs
      → (usd_of (bill_client share c l ct s).0 user ≡ usd_of s.0 user)
        × All (IsStranger user l) (bill_client share c l ct s).0.configs
  unfolding bill_client bill_config record_config debit_txn
  bill_client-other ct s h = elim (Option-cases (first_row (has_email l ct.email) s.0.configs)) [
    | inl unknown_client ↦ rw (unknown_client, bill_client) (refl, h)
    | inr (cfg, known) ↦ (
      rw (known, bill_client)
          (ground (
            arith,
            first_row-IsStranger user l ct.email s.0.configs cfg h known,
            get_balance-cons (debit_txn c l cfg (client_delta cfg ct)) s.0.wallet_transactions user
                Currency.usd,
          )),
      rw (known, bill_client)
          (subst (All (IsStranger user l)) (sym (bill_config-configs ct cfg s)) (
            All-update_rows (IsStranger user l) (λ x. x.id == cfg.id)
              (set_snapshot_anchor (next_anchor c.reset_succeeded (ct.up + ct.down))) s.0.configs
              (λ x p. ground (arith, p)) h)),
    )
  ]

  bill_clients-other :
      (cts : List ClientTraffic) (s : Db × Bool)
      → All (IsStranger user l) s.0.configs
      → usd_of (bill_clients share c l cts s).0 user ≡ usd_of s.0 user
  unfolding bill_clients
  bill_clients-other [] s h = refl
  bill_clients-other (ct ∷ cts) s h =
      let one = bill_client-other ct s h in
      bill_clients-other cts (bill_client share c l ct s) one.1 ∙ one.0

  -- A bill moves the balance of the seller and of the buyers that have an active config of the
  -- listing. Nobody else's dollar balance changes.
  pub bill_inbound-others :
      (snap : InboundSnapshot) (db : Db)
      → l.seller_user_id ≢ user
      → All (IsStranger user l) db.configs
      → usd_of (bill_inbound share c l snap db).0 user ≡ usd_of db user
  unfolding bill_inbound
  bill_inbound-others snap db ne h =
      bill_clients-other snap.clients (bill_seller share c l snap db)
        (subst (All (IsStranger user l)) (sym (bill_seller-configs snap db)) h)
      ∙ bill_seller-other snap db ne
