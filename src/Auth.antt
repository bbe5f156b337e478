-- ===== src/Auth.antt =====
-- Who a request comes from: app/common/telegram.py and app/api/deps.py. `parse_qsl`, the two HMACs
-- and what JSON and Python's `int` make of a text are parameters. Times are in microseconds. The
-- session of `current_user` commits its row whether or not the user is blocked.
pub mod Admitted
use abr_out.Prelude.{
  ℕ, ◌+◌, ◌*◌, List, [], ◌∷◌, ◌++◌, Option, none, some, Bool, true, false, not, ◌&&◌, ◌||◌, ◌==◌,
  ltb, if◌then◌else◌, drop,
}
use abr_out.Prelude.Int.{ℤ, pos, negsuc}
use abr_out.Prelude.Text.{Text, codes, same_text}
use abr_out.Prelude.Rows.{first_row, exists_row, update_rows, contains}
use abr_out.Prelude.Pages.{order_by}
use abr_out.Models.{Db, User}
use abr_out.Http.{HttpError, Outcome, ok, fail, ◌>>=◌, ◌>>◌, raise_if}
use abr_out.Vless.{lstrip, rstrip}

abbrev pub Dict : Type 0
Dict = List (Text × Text)

-- `dict(pairs)`: a later value of a key replaces an earlier one.
unfoldable pub put_key : Text → Text → Dict → Dict
unfolding same_text
put_key k v [] = (k, v) ∷ []
put_key k v ((j, u) ∷ entries) =
    let rest = put_key k v entries in if same_text k j then (j, v) ∷ entries else (j, u) ∷ rest

unfoldable pub dict_of : Dict → Dict → Dict
unfolding put_key
dict_of entries [] = entries
dict_of entries ((k, v) ∷ pairs) = dict_of (put_key k v entries) pairs

-- `parsed.get(key)` and `parsed.pop(key, None)`
unfoldable pub get_key : Text → Dict → Option Text
unfolding same_text
get_key k [] = none
get_key k ((j, v) ∷ entries) =
    let rest = get_key k entries in if same_text k j then some v else rest

unfoldable pub drop_key : Text → Dict → Dict
unfolding same_text
drop_key k [] = []
drop_key k ((j, v) ∷ entries) =
    let rest = drop_key k entries in if same_text k j then rest else (j, v) ∷ rest

unfoldable pub text_below : Text → Text → Bool
text_below s [] = false
text_below [] (d ∷ t) = true
text_below (c ∷ s) (d ∷ t) = ltb c d || (c == d && text_below s t)

-- `"\n".join(f"{k}={v}" …)`
unfoldable pub joined : Dict → Text
joined [] = []
joined ((k, v) ∷ []) = k ++ codes "=" ++ v
joined ((k, v) ∷ e ∷ entries) = k ++ codes "=" ++ v ++ (10 ∷ joined (e ∷ entries))

-- `data_check_string`
unfoldable pub data_check_string : Dict → Text
unfolding joined order_by text_below
data_check_string parsed = joined (order_by (λ (a : Text × Text) b. text_below a.0 b.0) parsed)

unfoldable pub is_ascii : Text → Bool
is_ascii [] = true
is_ascii (c ∷ s) = ltb c 128 && is_ascii s

-- The decoded `user`: no dict, or a dict with its id and its name; the id is `none` where it is
-- missing and `some none` where `int` raises.
pub data TgUser : Type 0 where
  no_dict : TgUser
  dict : Option (Option ℕ) → Option Text → TgUser

-- The libraries: `parse_qsl` and `int`, with `none` for a ValueError, the hex digest under a bot's
-- token, and `json.loads` of the user, with `none` for a JSONDecodeError.
pub record Codec : Type 0 where
  pub parse_qsl : Text → Option Dict
  pub int : Text → Option ℤ
  pub digest : Text → Text → Text
  pub user : Text → Option TgUser

abbrev pub max_age : ℕ
max_age = 86_400 * 1_000_000

-- `auth_date > 0 and time.time() - auth_date > max_age_sec`
abbrev pub is_expired : ℕ → ℤ → Bool
is_expired now (pos date) = not (date == 0) && ltb (date * 1_000_000 + max_age) now
is_expired now (negsuc n) = false

-- What raises a ValueError ends in a 401.
abbrev pub or_invalid : {A : Type 0} → Option A → Outcome A
or_invalid none = fail HttpError.invalid_init_data
or_invalid (some a) = ok a

abbrev pub or_text : Option Text → Text → Text
or_text none t = t
or_text (some s) t = s

-- `compare_digest`, which raises a TypeError on a text that is not ASCII.
abbrev pub check_digest : Text → Text → Outcome Unit
check_digest computed received = do
  raise_if (not (is_ascii received)) HttpError.server_error
  raise_if (not (same_text computed received)) HttpError.invalid_init_data

abbrev pub nonempty : Option Text → Option Text
nonempty none = none
nonempty (some []) = none
nonempty (some (c ∷ s)) = some (c ∷ s)

abbrev pub decoded : Codec → Option Text → Outcome (Option TgUser)
decoded codec none = ok none
decoded codec (some text) = or_invalid (codec.user text) >>= λ u. ok (some u)

-- `verify_init_data`: the user of the payload, if it has one.
unfoldable pub verify_init_data : Codec → Text → ℕ → Text → Outcome (Option TgUser)
unfolding dict_of get_key drop_key data_check_string
verify_init_data codec token now init_data = do
  checked ← or_invalid (nonempty (some init_data))
  pairs ← or_invalid (codec.parse_qsl checked)
  let parsed = dict_of [] pairs
  received ← or_invalid (nonempty (get_key (codes "hash") parsed))
  let rest = drop_key (codes "hash") parsed
  date ← or_invalid (codec.int (or_text (get_key (codes "auth_date") rest) (codes "0")))
  raise_if (is_expired now date) HttpError.invalid_init_data
  check_digest (codec.digest token (data_check_string rest)) received
  decoded codec (get_key (codes "user") rest)

abbrev pub is_letter : ℕ → ℕ → ℕ → Bool
is_letter upper lower c = c == upper || c == lower

-- `authorization.lower().startswith("tma ")`
abbrev pub has_scheme : Text → Bool
has_scheme (c ∷ d ∷ e ∷ f ∷ s) =
    is_letter b'T' b't' c && is_letter b'M' b'm' d && is_letter b'A' b'a' e && f == b' '
has_scheme _ = false

abbrev pub scheme_checked : Option Text → Outcome Text
scheme_checked none = fail HttpError.missing_auth
scheme_checked (some header) =
    if not (has_scheme header)
    then fail HttpError.missing_auth
    else ok (rstrip (lstrip (drop 4 header)))

-- `telegram_id` and `username`
abbrev pub identified : Option TgUser → Outcome (ℕ × Option Text)
identified none = fail HttpError.no_user
identified (some no_dict) = fail HttpError.no_user
identified (some (dict none name)) = fail HttpError.no_user
identified (some (dict (some none) name)) = fail HttpError.server_error
identified (some (dict (some (some id)) name)) = ok (id, name)

abbrev pub new_user : ℕ → ℕ → Option Text → User
new_user now id name = record {
  telegram_id = id;
  username = name;
  is_admin = false;
  is_blocked = false;
  started_at = none;
  created_at = now;
}

-- `INSERT … ON CONFLICT (telegram_id) DO UPDATE SET username`
unfoldable pub upsert_user : ℕ → ℕ → Option Text → List User → List User
upsert_user now id name users =
    if exists_row (λ u. u.telegram_id == id) users
    then update_rows (λ u. u.telegram_id == id) (λ u. record u { username = name }) users
    else new_user now id name ∷ users

abbrev pub with_users : List User → Db → Db
with_users users db = record db { users = users }

abbrev pub unless_blocked : Option User → Outcome User
unless_blocked none = fail HttpError.server_error
unless_blocked (some u) = if u.is_blocked then fail HttpError.account_blocked else ok u

module _ (codec : Codec) (token : Text) (now : ℕ) where
  -- The id and the name that the header proves.
  unfoldable pub authenticate : Option Text → Outcome (ℕ × Option Text)
  unfolding lstrip rstrip drop verify_init_data
  authenticate header = do
    init_data ← scheme_checked header
    raise_if (same_text token []) HttpError.bot_not_configured
    tg_user ← verify_init_data codec token now init_data
    identified tg_user

  abbrev pub admit : Outcome (ℕ × Option Text) → Db → Outcome User × Db
  admit (fail e) db = (fail e, db)
  admit (ok (id, name)) db =
      let users = upsert_user now id name db.users in
      (unless_blocked (first_row (λ u. u.telegram_id == id) users), with_users users db)

  -- `current_user`
  unfoldable pub current_user : Option Text → Db → Outcome User × Db
  unfolding authenticate upsert_user
  current_user header db = admit (authenticate header) db

  abbrev pub admin_of : List ℕ → Outcome User × Db → Outcome User × Db
  admin_of admin_ids (fail e, db) = (fail e, db)
  admin_of admin_ids (ok u, db) =
      (if contains u.telegram_id admin_ids then ok u else fail HttpError.admin_only, db)

  -- `current_admin`
  unfoldable pub current_admin : List ℕ → Option Text → Db → Outcome User × Db
  unfolding current_user contains
  current_admin admin_ids header db = admin_of admin_ids (current_user header db)
