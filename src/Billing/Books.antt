-- ===== src/Billing/Books.antt =====
-- The ledger and the usage tables tell the same story: the usage credits are the credits of the
-- outbound rows, and the usage debits are the debits of the config rows.
use abr_out.Prelude.{ℕ, List, [], ◌∷◌, Bool, true, false, ◌≡◌, inl, inr, arith, Option-cases}
use abr_out.Prelude.Int.{ℤ, pos, neg, int_laws}
use abr_out.Prelude.Rows.{select, sum_rows, first_row}
use abr_out.Models.{Db, Config, Listing, WalletTransaction, TxnType}
use abr_out.Outside.{ClientTraffic, InboundSnapshot}
use abr_out.Billing.{
  Cycle, outbound_row, config_row, credit_txn, debit_txn, record_outbound, record_config,
  bill_seller, bill_config, bill_client, bill_clients, bill_inbound, has_email, client_delta,
  outbound_delta,
}

abbrev pub is_usage_credit : WalletTransaction → Bool
is_usage_credit t = elim t.type [ TxnType.usage_credit ↦ true | _ ↦ false ]

abbrev pub is_usage_debit : WalletTransaction → Bool
is_usage_debit t = elim t.type [ TxnType.usage_debit ↦ true | _ ↦ false ]

abbrev pub booked : (WalletTransaction → Bool) → Db → ℤ
booked p db = sum_rows (λ t. t.amount) (select p db.wallet_transactions)

abbrev pub credited : Db → ℤ
credited db = sum_rows (λ u. pos u.seller_credit_usd) db.outbound_usage

abbrev pub debited : Db → ℤ
debited db = sum_rows (λ u. neg (pos u.buyer_debit_usd)) db.config_usage

-- The books are balanced.
pub record IsBalanced (db : Db) : Type 0 where
  pub credits : booked is_usage_credit db ≡ credited db
  pub debits : booked is_usage_debit db ≡ debited db

module _ (share : ℕ → ℕ → ℕ → ℕ) (c : Cycle) (l : Listing) where
  record_outbound-IsBalanced :
      (snap : InboundSnapshot) (delta : ℕ) (db : Db)
      → IsBalanced db
      → IsBalanced (record_outbound share c l snap delta db)
  unfolding record_outbound outbound_row credit_txn select sum_rows
  record_outbound-IsBalanced snap delta db b = grind (int_laws, b.credits, b.debits)

  record_config-IsBalanced :
      (ct : ClientTraffic) (cfg : Config) (delta : ℕ) (db : Db)
      → IsBalanced db
      → IsBalanced (record_config share c l ct cfg delta db)
  unfolding record_config config_row debit_txn select sum_rows
  record_config-IsBalanced ct cfg delta db b = grind (int_laws, b.credits, b.debits)

  bill_seller-IsBalanced :
      (snap : InboundSnapshot) (db : Db)
      → IsBalanced db
      → IsBalanced (bill_seller share c l snap db).0
  unfolding bill_seller
  bill_seller-IsBalanced snap db b =
      ground (arith, record_outbound-IsBalanced snap (outbound_delta l snap) db b)

  bill_client-IsBalanced :
      (ct : ClientTraffic) (s : Db × Bool)
      → IsBalanced s.0
      → IsBalanced (bill_client share c l ct s).0
  unfolding bill_client bill_config
  bill_client-IsBalanced ct s b =
      elim (Option-cases (first_row (has_email l ct.email) s.0.configs)) [
        | inl unknown_client ↦ rw (unknown_client, bill_client) b
        | inr (cfg, known) ↦
            rw (known, bill_client)
              (ground (arith, record_config-IsBalanced ct cfg (client_delta cfg ct) s.0 b))
      ]

  bill_clients-IsBalanced :
      (cts : List ClientTraffic) (s : Db × Bool)
      → IsBalanced s.0
      → IsBalanced (bill_clients share c l cts s).0
  unfolding bill_clients
  bill_clients-IsBalanced [] s b = b
  bill_clients-IsBalanced (ct ∷ cts) s b =
      bill_clients-IsBalanced cts (bill_client share c l ct s) (bill_client-IsBalanced ct s b)

  pub bill_inbound-IsBalanced :
      (snap : InboundSnapshot) (db : Db)
      → IsBalanced db
      → IsBalanced (bill_inbound share c l snap db).0
  unfolding bill_inbound
  bill_inbound-IsBalanced snap db b =
      bill_clients-IsBalanced snap.clients (bill_seller share c l snap db)
        (bill_seller-IsBalanced snap db b)
