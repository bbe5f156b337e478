-- ===== src/Http.antt =====
-- What a route answers: a value, or the `HTTPException` that it raises. `server_error` is any other
-- exception, which the framework turns into a 500.
use abr_out.Payout.Create.{WithdrawalError}
use abr_out.Prelude.{Bool, true, false, ◌≡◌, refl, ap}

pub data HttpError : Type 0 where
  invalid_body invalid_name insufficient_balance listing_not_found own_listing : HttpError
  not_provisioned too_many_configs panel_error server_error : HttpError
  config_not_found not_your_config listing_not_active : HttpError
  too_many_listings port_in_use not_your_listing not_broken save_failed : HttpError
  interval_required threshold_too_low fixed_amount_too_low invalid_address : HttpError
  service_unavailable withdrawal_not_found : HttpError
  user_not_found zero_amount broadcast_not_found support_message_not_found : HttpError
  missing_auth bot_not_configured invalid_init_data no_user account_blocked : HttpError
  admin_only : HttpError
  withdrawal_refused : WithdrawalError → HttpError

pub data Outcome (A : Type 0) : Type 0 where
  ok : A → Outcome A
  fail : HttpError → Outcome A

infixl 5 ◌>>=◌ ◌>>◌
abbrev pub ◌>>=◌ : {A B : Type 0} → Outcome A → (A → Outcome B) → Outcome B
ok a >>= f = f a
fail e >>= f = fail e

abbrev pub ◌>>◌ : {A B : Type 0} → Outcome A → Outcome B → Outcome B
m >> k = m >>= λ a. k

-- `if test: raise HTTPException(…)`
abbrev pub raise_if : Bool → HttpError → Outcome Unit
raise_if true e = fail e
raise_if false e = ok tt

-- A chain that goes through has gone through each of its parts.
pub >>=-ok :
    {A B : Type 0} (m : Outcome A) (f : A → Outcome B) (b : B)
    → (m >>= f) ≡ ok b
    → (a : A) × (m ≡ ok a) × (f a ≡ ok b)
>>=-ok (ok a) f b h = (a, refl, h)
>>=-ok (fail e) f b h = cc

or_else : {A : Type 0} → A → Outcome A → A
or_else d (ok a) = a
or_else d (fail e) = d

pub ok-injective : {A : Type 0} (a b : A) → ok a ≡ ok b → a ≡ b
unfolding or_else
ok-injective a b h = ap (or_else a) h
