-- ===== src/Admin/Tallies.antt =====
-- `list_users` and `_get_user_or_404` of app/api/routes/admin.py, side by side.
use abr_out.Prelude.{
  ℕ, some, List, [], ◌∷◌, All, All-map, Bool, false, ◌==◌, ◌≡◌, refl, inl, inr, arith, Bool-cases,
  if◌then◌else◌, length,
}
use abr_out.Prelude.Int.{ℤ, pos, ◌+ℤ◌, int_laws}
use abr_out.Prelude.Text.{Text}
use abr_out.Prelude.Rows.{select, sum_rows, first_row}
use abr_out.Prelude.Keyed.{IsKey, All-select, first_row_self}
use abr_out.Prelude.Pages.{All-page_of, All-order_by}
use abr_out.Models.{Db, User, Config, Listing}
use abr_out.Http.{ok, >>=-ok, ok-injective}
use abr_out.Admin.{get_user_or_404, full_balance, bought_by, offered_by}
use abr_out.Admin.Search.{
  add_group, group_sums, joined_value, listed_user, list_users, user_filter, BlockedFilter,
  UserSort, AdminUsersPage,
}

joined-add_group :
    (user k : ℕ) (a : ℤ) (groups : List (ℕ × ℤ))
    → joined_value user (add_group k a groups)
      ≡ (if k == user then a +ℤ joined_value user groups else joined_value user groups)
unfolding add_group joined_value
joined-add_group user k a [] =
    let zero_right : a +ℤ pos 0 ≡ a = omega int_laws in rw zero_right refl
joined-add_group user k a ((j, b) ∷ groups) = elim (Bool-cases (j == k)) [
  | inl same ↦ let e : j ≡ k = ground (arith, same) in rw same (rw e (ground arith))
  | inr fresh ↦ rw fresh (
      rw (joined-add_group user k a groups) (elim (Bool-cases (k == user)) [
        | inl own ↦ let e : (j == user) ≡ false = ground (arith, fresh, own) in rw own (rw e refl)
        | inr other ↦ rw other refl
      ]))
]

module _ {A : Type 0} (key : A → ℕ) (value : A → ℤ) where
  -- A subquery grouped by user, joined to a user, is the sum over the user's rows.
  joined-group_sums :
      (user : ℕ) (rows : List A)
      → joined_value user (group_sums key value rows)
        ≡ sum_rows value (select (λ x. key x == user) rows)
  unfolding group_sums joined_value sum_rows select
  joined-group_sums user [] = refl
  joined-group_sums user (x ∷ rows) = elim (Bool-cases (key x == user)) [
    | inl own ↦
        rw (joined-add_group user (key x) (value x) (group_sums key value rows))
          (rw (own, joined-group_sums user rows) refl)
    | inr other ↦
        rw (joined-add_group user (key x) (value x) (group_sums key value rows))
          (rw (other, joined-group_sums user rows) refl)
  ]

sum-ones : {A : Type 0} (rows : List A) → sum_rows (λ x. pos 1) rows ≡ pos (length rows)
unfolding sum_rows
sum-ones [] = refl
sum-ones (x ∷ rows) = rw (sum-ones rows) (omega int_laws)

listed_user-found :
    (db : Db) (u : User)
    → first_row (λ x. x.telegram_id == u.telegram_id) db.users ≡ some u
    → get_user_or_404 u.telegram_id db ≡ ok (listed_user db u)
unfolding get_user_or_404 listed_user full_balance bought_by offered_by
listed_user-found db u h =
    rw (h, get_user_or_404)
      (rw (joined-group_sums (λ t. t.user_id) (λ t. t.amount) u.telegram_id db.wallet_transactions)
        (rw
          (joined-group_sums (λ (c : Config). c.buyer_user_id) (λ c. pos 1) u.telegram_id
            db.configs)
          (rw
            (joined-group_sums (λ (l : Listing). l.seller_user_id) (λ l. pos 1) u.telegram_id
              db.listings)
            (rw
              (
                sum-ones (select (λ (c : Config). c.buyer_user_id == u.telegram_id) db.configs),
                sum-ones (select (λ (l : Listing). l.seller_user_id == u.telegram_id) db.listings),
              )
              refl))))

-- Every user on every page of the list, whatever is searched and however it is sorted, is shown with
-- the balance and the counts that the view of that user shows, if the ids of users are distinct.
pub list_users-eq-get_user :
    (ilike below : Text → Text → Bool) (q : Text) (blocked : BlockedFilter) (sort : UserSort)
    (ascending : Bool) (page size : ℕ) (db : Db) {shown : AdminUsersPage}
    → IsKey (λ u. u.telegram_id) db.users
    → list_users ilike below q blocked sort ascending page size db ≡ ok shown
    → All (λ item. get_user_or_404 item.telegram_id db ≡ ok item) shown.items
unfolding list_users
list_users-eq-get_user ilike below q blocked sort ascending page size db {shown} key h =
    let (p, filtered, e) = >>=-ok (user_filter ilike q blocked) _ shown h in
    let e' = ok-injective _ shown e in
    rw (← e') (
      All-page_of _ page size _ (
        All-order_by _ _ _ (
          All-map (λ item. get_user_or_404 item.telegram_id db ≡ ok item) (listed_user db)
            (select p db.users) (λ u found. listed_user-found db u found)
            (All-select _ p db.users (first_row_self (λ u. u.telegram_id) db.users key)))))
