-- ===== src/Auth/Admitted.antt =====
-- Whom `current_user` of app/api/deps.py lets in.
use mathlib.Core.Path.{subst}
use abr_out.Prelude.Rows.{update_rows}
use abr_out.Prelude.{
  not, ◌+◌, ◌*◌, zero, suc, ◌≤◌, ℕ, [], ◌∷◌, Option, none, some, Bool, true, false, ◌==◌, ◌≡◌, refl,
  sym, ◌∙◌, ap, arith, if◌then◌else◌,
}
use abr_out.Prelude.Int.{ℤ, pos, negsuc}
use abr_out.Prelude.Text.{Text, codes, same_text, same_text→eq}
use abr_out.Prelude.Updates.{first_row-updated, exists_row-found}
use abr_out.Models.{User}
use abr_out.Outside.{World}
use abr_out.Http.{HttpError, ok, fail, raise_if, >>=-ok, ok-injective}
use abr_out.Admin.{set_blocked, find_user}
use abr_out.Auth.{
  Codec, Dict, TgUser, dict, dict_of, get_key, drop_key, data_check_string, is_expired,
  verify_init_data, authenticate, current_user, upsert_user, or_invalid, nonempty, or_text,
  is_ascii, check_digest, decoded, identified, scheme_checked, unless_blocked,
}

-- A positive date lies a day back at most.
abbrev IsFresh : ℕ → ℤ → Type 0
IsFresh now (pos zero) = Unit
IsFresh now (pos (suc n)) = now ≤ (suc n + 24 * 60 * 60) * 1_000_000
IsFresh now (negsuc n) = Unit

is_expired-IsFresh : (now : ℕ) (date : ℤ) → is_expired now date ≡ false → IsFresh now date
is_expired-IsFresh now (pos zero) h = tt
is_expired-IsFresh now (pos (suc n)) h = ground (arith, h)
is_expired-IsFresh now (negsuc n) h = tt

-- What stands behind an id that a header proves.
pub record IsSigned (codec : Codec) (token : Text) (now id : ℕ) (pairs : Dict) : Type 0 where
  pub received : Text
  pub hashed : get_key (codes "hash") (dict_of [] pairs) ≡ some received
  pub signed :
      codec.digest token (data_check_string (drop_key (codes "hash") (dict_of [] pairs))) ≡ received
  pub date : ℤ
  pub dated :
      codec.int (
        or_text
          (get_key (codes "auth_date") (drop_key (codes "hash") (dict_of [] pairs)))
          (codes "0"))
      ≡ some date
  pub fresh : IsFresh now date
  pub json : Text
  pub carried : get_key (codes "user") (drop_key (codes "hash") (dict_of [] pairs)) ≡ some json
  pub name : Option Text
  pub read : codec.user json ≡ some (dict (some (some id)) name)

identified-ok :
    (o : Option TgUser) (id : ℕ) (name : Option Text)
    → identified o ≡ ok (id, name)
    → o ≡ some (dict (some (some id)) name)
identified-ok none id name h = cc
identified-ok (some TgUser.no_dict) id name h = cc
identified-ok (some (dict none n)) id name h = cc
identified-ok (some (dict (some none) n)) id name h = cc
identified-ok (some (dict (some (some i)) n)) id name h = ground (arith, h)

decoded-ok :
    (codec : Codec) (text : Option Text) (u : TgUser)
    → decoded codec text ≡ ok (some u)
    → (json : Text) × (text ≡ some json) × (codec.user json ≡ some u)
decoded-ok codec none u h = cc
decoded-ok codec (some json) u h = (json, refl, ground (arith, h))

or_invalid-ok : {A : Type 0} (o : Option A) (a : A) → or_invalid o ≡ ok a → o ≡ some a
or_invalid-ok none a h = cc
or_invalid-ok (some b) a h = ap (λ x. some x) (ok-injective b a h)

nonempty-some : (o : Option Text) (s : Text) → nonempty o ≡ some s → o ≡ some s
nonempty-some none s h = cc
nonempty-some (some []) s h = cc
nonempty-some (some (c ∷ t)) s h = h

some_same : (s t : Text) → some s ≡ some t → s ≡ t
some_same s t h = cc

raise_if-ok : (b : Bool) (e : HttpError) {a : Unit {0}} → raise_if b e ≡ ok a → b ≡ false
raise_if-ok true e h = cc
raise_if-ok false e h = refl

check_digest-same :
    (computed received : Text) {a : Unit {0}}
    → check_digest computed received ≡ ok a
    → computed ≡ received
check_digest-same computed received {a} h =
    let (b, plain, h₁) = >>=-ok (raise_if (not (is_ascii received)) HttpError.server_error) _ a h in
    same_text→eq computed received (
      ground
        (arith, raise_if-ok (not (same_text computed received)) HttpError.invalid_init_data h₁))

verified-IsSigned :
    (codec : Codec) (token : Text) (now id : ℕ) (name : Option Text) (init_data : Text)
    → verify_init_data codec token now init_data ≡ ok (some (dict (some (some id)) name))
    → (pairs : Dict) × (codec.parse_qsl init_data ≡ some pairs) × IsSigned codec token now id pairs
unfolding verify_init_data
verified-IsSigned codec token now id name init_data h =
    let u = dict (some (some id)) name in
    let (checked, c, h₁) = >>=-ok (or_invalid (nonempty (some init_data))) _ (some u) h in
    let (pairs, parsed, h₂) = >>=-ok (or_invalid (codec.parse_qsl checked)) _ (some u) h₁ in
    let entries = dict_of [] pairs in
    let (received, hashed, h₃) =
      >>=-ok (or_invalid (nonempty (get_key (codes "hash") entries))) _ (some u) h₂ in
    let rest = drop_key (codes "hash") entries in
    let (date, dated, h₄) =
      >>=-ok (or_invalid (codec.int (or_text (get_key (codes "auth_date") rest) (codes "0")))) _
        (some u) h₃ in
    let (a, fresh, h₅) =
      >>=-ok (raise_if (is_expired now date) HttpError.invalid_init_data) _ (some u) h₄ in
    let (b, digested, h₆) =
      >>=-ok (check_digest (codec.digest token (data_check_string rest)) received) _ (some u) h₅ in
    let (json, carried, read) = decoded-ok codec (get_key (codes "user") rest) u h₆ in
    let same : checked ≡ init_data =
      some_same _ _ (sym (nonempty-some (some init_data) checked (or_invalid-ok _ _ c))) in
    (
      pairs,
      subst (λ t. codec.parse_qsl t ≡ some pairs) same (or_invalid-ok _ _ parsed),
      record {
        received = received;
        hashed = nonempty-some _ received (or_invalid-ok _ _ hashed);
        signed = check_digest-same _ received digested;
        date = date;
        dated = or_invalid-ok _ _ dated;
        fresh = is_expired-IsFresh now date (raise_if-ok _ _ fresh);
        json = json;
        carried = carried;
        name = name;
        read = read;
      },
    )

-- An id that a header proves is one that the bot's token signed in the header's own data. The
-- `auth_date` of the signed data, zero where it bears none, reads as a number, and lies a day back at
-- most where that number is positive.
pub authenticate-IsSigned :
    (codec : Codec) (token : Text) (now id : ℕ) (name header : Option Text)
    → authenticate codec token now header ≡ ok (id, name)
    → (init_data : Text) × (pairs : Dict) × (scheme_checked header ≡ ok init_data)
      × (codec.parse_qsl init_data ≡ some pairs)
      × IsSigned codec token now id pairs
unfolding authenticate
authenticate-IsSigned codec token now id name header h =
    let (init_data, scheme, h₁) = >>=-ok (scheme_checked header) _ (id, name) h in
    let (a, configured, h₂) =
      >>=-ok (raise_if (same_text token []) HttpError.bot_not_configured) _ (id, name) h₁ in
    let (user, verified, h₃) =
      >>=-ok (verify_init_data codec token now init_data) _ (id, name) h₂ in
    let e = identified-ok user id name h₃ in
    let (pairs, parsed, signed) =
      verified-IsSigned codec token now id name init_data (verified ∙ ap (λ o. ok o) e) in
    (init_data, pairs, scheme, parsed, signed)

met :
    (blocked : Bool) (u : User) (name : Option Text)
    → unless_blocked (some (record u { username = name; is_blocked = blocked })) ≡ (
        if blocked
        then fail HttpError.account_blocked
        else ok (record u { username = name; is_blocked = false }))
met true u name = refl
met false u name = refl

-- A block by an admin, or its end, is what the next request of that user meets: a proven id of a
-- blocked user is turned away, and that of another is let in under the name that Telegram gives.
pub set_blocked-admits :
    (codec : Codec) (token : Text) (now user_id : ℕ) (blocked : Bool) (header name : Option Text)
    (w : World) (u : User)
    → find_user user_id w.db ≡ some u
    → authenticate codec token now header ≡ ok (user_id, name)
    → (current_user codec token now header (set_blocked user_id blocked w).1.db).0 ≡ (
        if blocked
        then fail HttpError.account_blocked
        else ok (record u { username = name; is_blocked = false }))
unfolding set_blocked current_user upsert_user
set_blocked-admits codec token now user_id blocked header name w u found proven =
    let p : User → Bool = λ x. x.telegram_id == user_id in
    let b : User → User = λ x. record x { is_blocked = blocked } in
    let n : User → User = λ x. record x { username = name } in
    let set = first_row-updated p b u w.db.users (λ x. refl) found in
    let there = exists_row-found p (b u) (update_rows p b w.db.users) set in
    let named = first_row-updated p n (b u) (update_rows p b w.db.users) (λ x. refl) set in
    rw (found, set_blocked)
      (rw (proven, current_user) (rw (there, upsert_user) (rw named (met blocked u name))))
