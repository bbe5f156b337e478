-- ===== src/Wallet/Balance.antt =====
-- How a new ledger row moves the balances.
use abr_out.Prelude.{ℕ, List, ◌∷◌, ◌≡◌, arith, if◌then◌else◌}
use abr_out.Prelude.Int.{◌+ℤ◌}
use abr_out.Prelude.Rows.{select, sum_rows}
use abr_out.Models.{WalletTransaction, Currency}
use abr_out.Wallet.{get_balance, belongs_to}

-- A row counts for the balance of its own user in its own currency, and for no other.
pub get_balance-cons :
    (t : WalletTransaction) (ledger : List WalletTransaction) (user : ℕ) (currency : Currency)
    → get_balance (t ∷ ledger) user currency ≡ (
        if belongs_to user currency t
        then t.amount +ℤ get_balance ledger user currency
        else get_balance ledger user currency)
unfolding get_balance select sum_rows
get_balance-cons t ledger user currency = ground arith
