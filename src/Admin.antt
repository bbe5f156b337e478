-- ===== src/Admin.antt =====
-- app/api/routes/admin.py: users, support messages and broadcasts. The caller is an admin that
-- `current_admin` let in. Telegram's answer to a message counts only where a route passes it on.
pub mod Search
pub mod Accounts
pub mod Tallies
pub mod Found
pub mod Answered
use abr_out.Prelude.{
  ℕ, List, [], ◌∷◌, Option, none, some, Bool, true, false, not, ◌&&◌, ◌||◌, ◌==◌, leb, ltb, length,
  if◌then◌else◌, is_some,
}
use abr_out.Prelude.Int.{ℤ, pos, ltb_ℤ}
use abr_out.Prelude.Text.{Text}
use abr_out.Prelude.Rows.{select, first_row, exists_row, update_rows, sum_rows}
use abr_out.Prelude.Pages.{order_by, page_of}
use abr_out.Models.{
  Db, User, Config, Listing, WalletTransaction, TxnType, Currency, Ref, Note, IdempotencyKey,
  SupportMessage, SupportDirection, is_inbound, Audience, AudienceKind,
}
use abr_out.Outside.{World, Effect, Message, Telegram, emit}
use abr_out.Http.{HttpError, Outcome, ok, fail, ◌>>=◌, ◌>>◌, raise_if}
use abr_out.Wallet.{commit}

-- `AdminUserOut`
pub record AdminUserOut : Type 0 where
  pub telegram_id : ℕ
  pub username : Option Text
  pub is_admin : Bool
  pub is_blocked : Bool
  pub balance_usd : ℤ
  pub configs_count : ℕ
  pub listings_count : ℕ
  pub created_at : ℕ
  pub started_at : Option ℕ

abbrev pub user_out : User → ℤ → ℕ → ℕ → AdminUserOut
user_out u balance configs listings = record {
  telegram_id = u.telegram_id;
  username = u.username;
  is_admin = u.is_admin;
  is_blocked = u.is_blocked;
  balance_usd = balance;
  configs_count = configs;
  listings_count = listings;
  created_at = u.created_at;
  started_at = u.started_at;
}

abbrev pub find_user : ℕ → Db → Option User
find_user user_id db = first_row (λ u. u.telegram_id == user_id) db.users

-- The three counts of `_get_user_or_404`; the sum is over every currency.
unfoldable pub full_balance : ℕ → List WalletTransaction → ℤ
unfolding sum_rows select
full_balance user ledger = sum_rows (λ t. t.amount) (select (λ t. t.user_id == user) ledger)

unfoldable pub bought_by : ℕ → List Config → ℕ
unfolding select
bought_by user configs = length (select (λ c. c.buyer_user_id == user) configs)

unfoldable pub offered_by : ℕ → List Listing → ℕ
unfolding select
offered_by user listings = length (select (λ l. l.seller_user_id == user) listings)

-- `_get_user_or_404`
unfoldable pub get_user_or_404 : ℕ → Db → Outcome AdminUserOut
get_user_or_404 user_id db = elim (find_user user_id db) [
  | none ↦ fail HttpError.user_not_found
  | some u ↦ ok (
      user_out u (full_balance user_id db.wallet_transactions) (bought_by user_id db.configs)
        (offered_by user_id db.listings))
]

abbrev pub block_notice : Bool → Message
block_notice true = Message.account_blocked
block_notice false = Message.account_unblocked

abbrev pub write_blocked : ℕ → Bool → Db → Db
write_blocked user_id blocked db = record db {
  users =
      update_rows (λ u. u.telegram_id == user_id) (λ u. record u { is_blocked = blocked }) db.users;
}

-- `set_blocked`
unfoldable pub set_blocked : ℕ → Bool → World → Outcome AdminUserOut × World
set_blocked user_id blocked w = elim (find_user user_id w.db) [
  | none ↦ (fail HttpError.user_not_found, w)
  | some u ↦
      let db = write_blocked user_id blocked w.db in
      (
        get_user_or_404 user_id db,
        emit (Effect.message user_id (block_notice blocked)) (record w { db = db }),
      )
]

-- The four types that `TxBody` admits.
pub data AdminTxnType : Type 0 where
  adjustment topup refund payout : AdminTxnType

abbrev pub txn_type : AdminTxnType → TxnType
txn_type AdminTxnType.adjustment = TxnType.adjustment
txn_type AdminTxnType.topup = TxnType.topup
txn_type AdminTxnType.refund = TxnType.refund
txn_type AdminTxnType.payout = TxnType.payout

-- `TxBody`
pub record TxBody : Type 0 where
  pub amount : ℤ
  pub type : AdminTxnType
  pub note : Text

abbrev pub is_tx_body : TxBody → Bool
is_tx_body body = leb 2 (length body.note) && leb (length body.note) 500

abbrev pub is_zero : ℤ → Bool
is_zero a = not (ltb_ℤ a (pos 0)) && not (ltb_ℤ (pos 0) a)

-- The row that the route adds; `token` is the random uuid of its key.
abbrev pub admin_transaction : ℕ → ℕ → ℕ → TxBody → WalletTransaction
admin_transaction admin token user_id body = record {
  user_id = user_id;
  amount = body.amount;
  currency = Currency.usd;
  type = txn_type body.type;
  ref = some (Ref.admin admin);
  note = some (Note.written body.note);
  idempotency_key = some (IdempotencyKey.admin admin token);
}

abbrev pub add_transaction : WalletTransaction → Db → Db
add_transaction t db = record db { wallet_transactions = t ∷ db.wallet_transactions }

-- The checks of `add_user_transaction`, and the row.
unfoldable pub check_transaction : ℕ → ℕ → ℕ → TxBody → Db → Outcome WalletTransaction
check_transaction admin token user_id body db = do
  raise_if (not (is_tx_body body)) HttpError.invalid_body
  raise_if (is_zero body.amount) HttpError.zero_amount
  raise_if (not (is_some (find_user user_id db))) HttpError.user_not_found
  ok (admin_transaction admin token user_id body)

-- The commit, which fails where the key is taken, and the message.
unfoldable pub store_transaction :
    WalletTransaction → Text → World → Outcome WalletTransaction × World
store_transaction t note w = elim (commit (add_transaction t w.db)) [
  | none ↦ (fail HttpError.server_error, w)
  | some db ↦ (
    ok t,
    emit (Effect.message t.user_id (Message.balance_changed t.amount note)) (record w { db = db }),
  )
]

abbrev pub when_checked :
    Outcome WalletTransaction → Text → World → Outcome WalletTransaction × World
when_checked (fail e) note w = (fail e, w)
when_checked (ok t) note w = store_transaction t note w

-- `add_user_transaction`
unfoldable pub add_user_transaction : ℕ → ℕ → ℕ → TxBody → World → Outcome WalletTransaction × World
unfolding check_transaction store_transaction
add_user_transaction admin token user_id body w =
    when_checked (check_transaction admin token user_id body w.db) body.note w

-- `Field(min_length=1, max_length=4000)`
abbrev pub is_message_text : Text → Bool
is_message_text text = leb 1 (length text) && leb (length text) 4_000

-- A message to a user, its row stored before it is sent. `id` and `now` are the row's own.
abbrev pub outbound_message : ℕ → ℕ → ℕ → ℕ → Text → Option ℕ → SupportMessage
outbound_message id now admin user_id text replied_to = record {
  id = id;
  user_id = user_id;
  direction = SupportDirection.out;
  text = text;
  replied_by_admin_id = some admin;
  replied_to_id = replied_to;
  created_at = now;
}

abbrev pub store_message : SupportMessage → Message → World → World
store_message m text w =
    emit (Effect.message m.user_id text)
      (record w { db = record w.db { support_messages = m ∷ w.db.support_messages } })

module _ (telegram : Telegram) (id now admin : ℕ) where
  -- `send_user_dm`
  unfoldable pub send_user_dm : ℕ → Text → World → Outcome Bool × World
  send_user_dm user_id text w =
      if not (is_message_text text)
      then (fail HttpError.invalid_body, w)
      else elim (find_user user_id w.db) [
        | none ↦ (fail HttpError.user_not_found, w)
        | some u ↦ (
          ok (telegram user_id (Message.admin_message text)),
          store_message (outbound_message id now admin user_id text none)
              (Message.admin_message text) w,
        )
      ]

  unfoldable pub reply_to : ℕ → Text → Option SupportMessage → World → Outcome Bool × World
  reply_to sid text none w = (fail HttpError.support_message_not_found, w)
  reply_to sid text (some original) w =
      if not (is_inbound original.direction)
      then (fail HttpError.support_message_not_found, w)
      else (
        ok (telegram original.user_id (Message.support_reply text)),
        store_message (outbound_message id now admin original.user_id text (some sid))
            (Message.support_reply text) w,
      )

  -- `reply_support`
  unfoldable pub reply_support : ℕ → Text → World → Outcome Bool × World
  unfolding reply_to
  reply_support sid text w =
      if not (is_message_text text)
      then (fail HttpError.invalid_body, w)
      else reply_to sid text (first_row (λ m. m.id == sid) w.db.support_messages) w

-- `SupportPage`: the messages with the names of their senders.
pub record SupportPage : Type 0 where
  pub items : List (SupportMessage × Option Text)
  pub total : ℕ
  pub page : ℕ
  pub size : ℕ

abbrev pub replies_to : ℕ → SupportMessage → Bool
replies_to sid m =
    not (is_inbound m.direction) && (elim m.replied_to_id [ none ↦ false | some r ↦ r == sid ])

-- The filter of `list_support`.
abbrev pub is_listed : Bool → List SupportMessage → SupportMessage → Bool
is_listed only_unanswered messages m =
    is_inbound m.direction && (not only_unanswered || not (exists_row (replies_to m.id) messages))

abbrev pub name_of : Option User → Option Text
name_of none = none
name_of (some u) = u.username

abbrev pub with_name : Db → SupportMessage → SupportMessage × Option Text
with_name db m = (m, name_of (find_user m.user_id db))

unfoldable pub with_names : Db → List SupportMessage → List (SupportMessage × Option Text)
with_names db [] = []
with_names db (m ∷ ms) = with_name db m ∷ with_names db ms

-- `list_support`
unfoldable pub list_support : Bool → ℕ → ℕ → Db → SupportPage
unfolding with_names
list_support only_unanswered page size db =
    let where' = select (is_listed only_unanswered db.support_messages) db.support_messages in
    record {
      items =
          with_names db
            (page_of page size (order_by (λ a b. ltb b.created_at a.created_at) where'));
      total = length where';
      page = page;
      size = size;
    }
