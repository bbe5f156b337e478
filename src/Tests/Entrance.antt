-- ===== src/Tests/Entrance.antt =====
-- User 20 opens the app with data of a toy signature, before and after a block.
use abr_out.Prelude.{◌++◌, [], ◌∷◌, Option, none, some, true, false, ◌≡◌, refl, if◌then◌else◌, drop}
use abr_out.Prelude.Int.{pos}
use abr_out.Prelude.Text.{Text, codes, same_text}
use abr_out.Prelude.Rows.{first_row}
use abr_out.Prelude.Pages.{order_by, insert_row}
use abr_out.Http.{HttpError, ok, fail}
use abr_out.Vless.{lstrip, rstrip}
use abr_out.Admin.{find_user, set_blocked}
use abr_out.Auth.{
  Codec, Dict, TgUser, authenticate, current_user, verify_init_data, dict_of, put_key, get_key,
  drop_key, data_check_string, joined, text_below, is_ascii, scheme_checked,
}
use abr_out.Auth.Admitted.{IsSigned, authenticate-IsSigned, set_blocked-admits}
use abr_out.Tests.Sample.{market, world_of, user}

abbrev pairs : Dict
pairs =
    (codes "user", codes "20")
    ∷ (codes "auth_date", codes "5")
    ∷ (codes "hash", codes "kauth_date=5" ++ 10 ∷ codes "user=20")
    ∷ []

-- The signature is the token before the signed text.
abbrev codec : Codec
codec = record {
  parse_qsl = λ s. some pairs;
  int = λ s. some (pos 5);
  digest = λ token s. token ++ s;
  user = λ s. some (TgUser.dict (some (some 20)) none);
}

abbrev header : Option Text
header = some (codes "tma q")

proves : authenticate codec (codes "k") 6_000_000 header ≡ ok (20, none)
unfolding authenticate verify_init_data dict_of put_key get_key drop_key data_check_string joined
    order_by insert_row text_below is_ascii same_text lstrip rstrip drop
proves = refl

authenticate-IsSigned_example :
    (init_data : Text) × (ps : Dict) × (scheme_checked header ≡ ok init_data)
    × (codec.parse_qsl init_data ≡ some ps)
    × IsSigned codec (codes "k") 6_000_000 20 ps
authenticate-IsSigned_example =
    authenticate-IsSigned codec (codes "k") 6_000_000 20 none header proves

buyer_found : find_user 20 market ≡ some (user 20)
unfolding first_row
buyer_found = refl

set_blocked-admits_example :
    (current_user codec (codes "k") 6_000_000 header (set_blocked 20 true (world_of market)).1.db).0
    ≡ (if true
        then fail HttpError.account_blocked
        else ok (record (user 20) { username = none; is_blocked = false }))
set_blocked-admits_example =
    set_blocked-admits codec (codes "k") 6_000_000 20 true header none (world_of market) (user 20)
      buyer_found proves
