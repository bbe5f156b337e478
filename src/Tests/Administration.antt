-- ===== src/Tests/Administration.antt =====
-- An admin searches, corrects a balance and answers a message.
use abr_out.Prelude.{
  ℕ, ◌++◌, [], ◌∷◌, All, none, Bool, true, false, ◌||◌, ◌==◌, ◌≡◌, refl, take, drop,
}
use abr_out.Prelude.Int.{negsuc}
use abr_out.Prelude.Text.{Text, codes, same_text}
use abr_out.Prelude.Rows.{select, first_row, exists_row, unique_on}
use abr_out.Prelude.Keyed.{IsKey}
use abr_out.Prelude.Pages.{order_by, insert_row, page_of}
use abr_out.Models.{User, SupportMessage, SupportDirection}
use abr_out.Outside.{World, Telegram}
use abr_out.Http.{ok}
use abr_out.Wallet.{commit, satisfies_constraints}
use abr_out.Vless.{decimal}
use abr_out.Admin.{
  AdminUserOut, TxBody, AdminTxnType, get_user_or_404, add_user_transaction, admin_transaction,
  check_transaction, store_transaction, reply_support, reply_to,
}
use abr_out.Admin.Search.{
  AdminUsersPage, BlockedFilter, UserSort, list_users, listed_user, user_filter, name_is_like,
}
use abr_out.Admin.Tallies.{list_users-eq-get_user}
use abr_out.Admin.Found.{user_filter-decimal}
use abr_out.Admin.Accounts.{IsCorrected, add_user_transaction-IsCorrected}
use abr_out.Tests.Sample.{market, world_of}

-- No name is like anything, and all names are equal.
abbrev ilike : Text → Text → Bool
ilike name pattern = same_text name pattern

abbrev below : Text → Text → Bool
below a b = false

abbrev shown : AdminUsersPage
shown = record {
  items =
      listed_user market (record {
        telegram_id = 20;
        username = none;
        is_admin = false;
        is_blocked = false;
        started_at = none;
        created_at = 20;
      })
      ∷ [];
  total = 3;
  page = 2;
  size = 1;
}

lists : list_users ilike below [] BlockedFilter.all UserSort.created_at true 2 1 market ≡ ok shown
unfolding list_users user_filter select order_by insert_row page_of take drop
lists = refl

user_ids : IsKey (λ (u : User). u.telegram_id) market.users
unfolding unique_on exists_row
user_ids = refl

list_users-eq-get_user_example :
    All (λ (item : AdminUserOut). get_user_or_404 item.telegram_id market ≡ ok item) shown.items
list_users-eq-get_user_example =
    list_users-eq-get_user ilike below [] BlockedFilter.all UserSort.created_at true 2 1 market
      user_ids lists

user_filter-decimal_example :
    (p : User → Bool) × (user_filter ilike (decimal 907) BlockedFilter.all ≡ ok p)
    × ((u : User)
        → p u ≡ (
            name_is_like ilike (codes "%" ++ decimal 907 ++ codes "%") u.username
            || u.telegram_id == 907))
user_filter-decimal_example = user_filter-decimal ilike 907

-- A dollar less for the buyer.
abbrev correction : TxBody
correction = record {
  amount = negsuc 99_999_999;
  type = AdminTxnType.adjustment;
  note = codes "fee";
}

corrects :
    (add_user_transaction 9 5 20 correction (world_of market)).0
    ≡ ok (admin_transaction 9 5 20 correction)
unfolding add_user_transaction check_transaction store_transaction first_row commit unique_on
    exists_row satisfies_constraints
corrects = refl

add_user_transaction-IsCorrected_example :
    IsCorrected 20 correction.amount market
      (add_user_transaction 9 5 20 correction (world_of market)).1.db
add_user_transaction-IsCorrected_example =
    add_user_transaction-IsCorrected 9 5 20 correction (world_of market) corrects

abbrev question : ℕ → SupportMessage
question id = record {
  id = id;
  user_id = 20;
  direction = SupportDirection.in_;
  text = codes "help";
  replied_by_admin_id = none;
  replied_to_id = none;
  created_at = id;
}

abbrev asked : World
asked = world_of (record market { support_messages = question 2 ∷ question 1 ∷ [] })

abbrev telegram : Telegram
telegram user text = true

answers : (reply_support telegram 3 100 9 1 (codes "yes") asked).0 ≡ ok true
unfolding reply_support reply_to first_row
answers = refl
