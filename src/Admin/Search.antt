-- ===== src/Admin/Search.antt =====
-- `list_users` of app/api/routes/admin.py: the search, the grouped subqueries with their outer joins,
-- the order and the page. PostgreSQL's ILIKE and its order of names are parameters. Digits are
-- those of ASCII.
use abr_out.Prelude.{
  ℕ, ◌+◌, ◌-◌, ◌*◌, List, [], ◌∷◌, ◌++◌, Option, none, some, Bool, true, false, not, ◌&&◌, ◌||◌,
  ◌==◌, ltb, length, map, if◌then◌else◌,
}
use abr_out.Prelude.Int.{ℤ, pos, neg, ◌+ℤ◌, ltb_ℤ, leb_ℤ}
use abr_out.Prelude.Text.{Text, codes}
use abr_out.Prelude.Rows.{select}
use abr_out.Prelude.Pages.{order_by, page_of}
use abr_out.Models.{Db, User, Config, Listing, WalletTransaction}
use abr_out.Http.{HttpError, Outcome, ok, fail, ◌>>=◌}
use abr_out.Vless.{is_digit, lstrip, rstrip}
use abr_out.Admin.{AdminUserOut, user_out}

unfoldable pub all_digits : Text → Bool
all_digits [] = true
all_digits (c ∷ s) = is_digit c && all_digits s

-- `isdigit()`
abbrev pub is_number : Text → Bool
is_number [] = false
is_number (c ∷ s) = all_digits (c ∷ s)

-- `lstrip("-")`
unfoldable pub lstrip_minus : Text → Text
lstrip_minus [] = []
lstrip_minus (c ∷ s) = let rest = lstrip_minus s in if c == b'-' then rest else c ∷ s

unfoldable pub digits_value : ℕ → Text → ℕ
digits_value acc [] = acc
digits_value acc (c ∷ s) = digits_value (acc * 10 + (c - b'0')) s

-- `int()` of minus signs and digits; `none` is a ValueError.
unfoldable pub int_value : Text → Option ℤ
unfolding digits_value all_digits
int_value [] = none
int_value (c ∷ s) =
    if c == b'-'
    then (if is_number s then some (neg (pos (digits_value 0 s))) else none)
    else if is_number (c ∷ s)
    then some (pos (digits_value 0 (c ∷ s)))
    else none

abbrev pub found_id : Option ℤ → Outcome (Option ℤ)
found_id none = fail HttpError.server_error
found_id (some i) = ok (some i)

-- The id that a search asks for, if it looks like one.
unfoldable pub searched_id : Text → Outcome (Option ℤ)
unfolding lstrip_minus int_value all_digits
searched_id stripped =
    if is_number (lstrip_minus stripped) then found_id (int_value stripped) else ok none

abbrev pub same_id : Option ℤ → ℕ → Bool
same_id none id = false
same_id (some i) id = leb_ℤ i (pos id) && leb_ℤ (pos id) i

-- A NULL name is like nothing.
abbrev pub name_is_like : (Text → Text → Bool) → Text → Option Text → Bool
name_is_like ilike pattern none = false
name_is_like ilike pattern (some name) = ilike name pattern

pub data BlockedFilter : Type 0 where
  all yes no : BlockedFilter

abbrev pub has_block : BlockedFilter → User → Bool
has_block BlockedFilter.all u = true
has_block BlockedFilter.yes u = u.is_blocked
has_block BlockedFilter.no u = not u.is_blocked

abbrev pub is_searched : (Text → Text → Bool) → Text → Option ℤ → User → Bool
is_searched ilike stripped id u =
    name_is_like ilike (codes "%" ++ stripped ++ codes "%") u.username || same_id id u.telegram_id

-- `where`; an empty search is none.
unfoldable pub user_filter : (Text → Text → Bool) → Text → BlockedFilter → Outcome (User → Bool)
unfolding searched_id
user_filter ilike [] blocked = ok (has_block blocked)
user_filter ilike (c ∷ q) blocked = do
  let stripped = rstrip (lstrip (c ∷ q))
  id ← searched_id stripped
  ok (λ u. is_searched ilike stripped id u && has_block blocked u)

-- `SELECT key, sum(value) GROUP BY key`
unfoldable pub add_group : ℕ → ℤ → List (ℕ × ℤ) → List (ℕ × ℤ)
add_group k a [] = (k, a) ∷ []
add_group k a ((j, b) ∷ groups) =
    let rest = add_group k a groups in if j == k then (j, a +ℤ b) ∷ groups else (j, b) ∷ rest

module _ {A : Type 0} (key : A → ℕ) (value : A → ℤ) where
  unfoldable pub group_sums : List A → List (ℕ × ℤ)
  unfolding add_group
  group_sums [] = []
  group_sums (x ∷ xs) = add_group (key x) (value x) (group_sums xs)

-- The outer join with a subquery, and `coalesce(…, 0)`.
unfoldable pub joined_value : ℕ → List (ℕ × ℤ) → ℤ
joined_value k [] = pos 0
joined_value k ((j, b) ∷ groups) = let rest = joined_value k groups in if j == k then b else rest

abbrev pub to_count : ℤ → ℕ
to_count (pos n) = n
to_count _ = 0

-- A row of `base`.
unfoldable pub listed_user : Db → User → AdminUserOut
unfolding group_sums joined_value
listed_user db u =
    user_out u
      (joined_value u.telegram_id
        (group_sums (λ (t : WalletTransaction). t.user_id) (λ t. t.amount) db.wallet_transactions))
      (to_count (
        joined_value u.telegram_id
          (group_sums (λ (c : Config). c.buyer_user_id) (λ c. pos 1) db.configs)))
      (to_count (
        joined_value u.telegram_id
          (group_sums (λ (l : Listing). l.seller_user_id) (λ l. pos 1) db.listings)))

pub data UserSort : Type 0 where
  created_at balance username telegram_id : UserSort

-- NULL stands above every name.
abbrev pub name_below : (Text → Text → Bool) → Option Text → Option Text → Bool
name_below below none b = false
name_below below (some a) none = true
name_below below (some a) (some b) = below a b

abbrev pub sorts_below : (Text → Text → Bool) → UserSort → AdminUserOut → AdminUserOut → Bool
sorts_below below UserSort.created_at a b = ltb a.created_at b.created_at
sorts_below below UserSort.balance a b = ltb_ℤ a.balance_usd b.balance_usd
sorts_below below UserSort.username a b = name_below below a.username b.username
sorts_below below UserSort.telegram_id a b = ltb a.telegram_id b.telegram_id

abbrev pub in_order :
    Bool → (AdminUserOut → AdminUserOut → Bool) → AdminUserOut → AdminUserOut → Bool
in_order true below a b = below a b
in_order false below a b = below b a

-- `AdminUsersPage`
pub record AdminUsersPage : Type 0 where
  pub items : List AdminUserOut
  pub total : ℕ
  pub page : ℕ
  pub size : ℕ

module _ (ilike below : Text → Text → Bool) where
  -- `list_users`
  unfoldable pub list_users :
      Text → BlockedFilter → UserSort → Bool → ℕ → ℕ → Db → Outcome AdminUsersPage
  unfolding user_filter listed_user
  list_users q blocked sort ascending page size db = do
    where' ← user_filter ilike q blocked
    let base = map (listed_user db) (select where' db.users)
    ok record {
      items = page_of page size (order_by (in_order ascending (sorts_below below sort)) base);
      total = length (select where' db.users);
      page = page;
      size = size;
    }
