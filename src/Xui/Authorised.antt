-- ===== src/Xui/Authorised.antt =====
-- What the client of app/common/panel/xui_client.py sends, and when.
use abr_out.Prelude.{List, [], ◌∷◌, Bool, true, false, ◌&&◌, ◌||◌, ◌≡◌, refl, arith}
use abr_out.Xui.{
  Transport, Session, HttpRequest, HttpResult, Answer, Body, got, refused, unreachable, checked,
  log_in, send_once, send_with_retry, request, then_do, mark_login, login_unless, retry_if,
}

abbrev is_got : Answer Body → Bool
is_got (got b) = true
is_got refused = false
is_got unreachable = false

abbrev is_login : HttpRequest → Bool
is_login HttpRequest.login = true
is_login _ = false

-- Among these requests is a login that the panel took.
unfoldable pub had_login : Transport → List HttpRequest → Bool
had_login t [] = false
had_login t (r ∷ before) = (is_login r && is_got (checked (t before r))) || had_login t before

-- Each request but a login has a login before it that the panel took.
abbrev pub all_authorised : Transport → List HttpRequest → Bool
all_authorised t [] = true
all_authorised t (r ∷ before) = (is_login r || had_login t before) && all_authorised t before

-- The client holds itself for logged in only after such a login.
pub record IsAuthorised (t : Transport) (s : Session) : Type 0 where
  pub ordered : all_authorised t s.sent ≡ true
  pub honest : s.logged_in ≡ true → had_login t s.sent ≡ true

-- After a step: the client is authorised, and if the step went through it is past a login.
record IsStep (t : Transport) (a : Answer Body × Session) : Type 0 where
  kept : IsAuthorised t a.1
  past : is_got a.0 ≡ true → had_login t a.1.sent ≡ true

module _ (t : Transport) where
  marked-IsStep :
      (s : Session) (o : Answer Body)
      → IsAuthorised t s
      → checked (t s.sent HttpRequest.login) ≡ o
      → IsStep t (mark_login (o, record s { sent = HttpRequest.login ∷ s.sent }))
  unfolding had_login
  marked-IsStep s (got b) h e = record {
    kept = record { ordered = h.ordered; honest = λ _. rw e refl };
    past = λ _. rw e refl;
  }
  marked-IsStep s refused h e = record {
    kept = record { ordered = h.ordered; honest = λ l. rw (e, h.honest l) refl };
    past = λ l. cc;
  }
  marked-IsStep s unreachable h e = record {
    kept = record { ordered = h.ordered; honest = λ l. rw (e, h.honest l) refl };
    past = λ l. cc;
  }

  log_in-IsStep : (s : Session) → IsAuthorised t s → IsStep t (log_in t s)
  unfolding log_in had_login
  log_in-IsStep s h = marked-IsStep s _ h refl

  sent-IsAuthorised :
      (r : HttpRequest) (s : Session)
      → IsAuthorised t s
      → had_login t s.sent ≡ true
      → IsAuthorised t (record s { sent = r ∷ s.sent })
  unfolding had_login
  sent-IsAuthorised r s h logged = record {
    ordered = ground (arith, h.ordered, logged);
    honest = λ _. ground (arith, logged);
  }

  then_send :
      (r : HttpRequest) (a : Answer Body × Session)
      → IsStep t a
      → IsAuthorised t (then_do a (λ b. send_once t r)).1
  unfolding send_once
  then_send r (got b, s) h = sent-IsAuthorised r s h.kept (h.past refl)
  then_send r (refused, s) h = h.kept
  then_send r (unreachable, s) h = h.kept

  retry_if-IsAuthorised :
      (r : HttpRequest) (again : Bool) (result : HttpResult) (s : Session)
      → IsAuthorised t s
      → IsAuthorised t (retry_if t r again result s).1
  retry_if-IsAuthorised r true result s h = then_send r (log_in t s) (log_in-IsStep s h)
  retry_if-IsAuthorised r false result s h = h

  then_retry :
      (r : HttpRequest) (a : Answer Body × Session)
      → IsStep t a
      → IsAuthorised t (then_do a (λ b. send_with_retry t r)).1
  unfolding send_with_retry
  then_retry r (got b, s) h =
      retry_if-IsAuthorised r _ _ _ (sent-IsAuthorised r s h.kept (h.past refl))
  then_retry r (refused, s) h = h.kept
  then_retry r (unreachable, s) h = h.kept

  login_unless-IsStep :
      (logged : Bool) (s : Session)
      → s.logged_in ≡ logged
      → IsAuthorised t s
      → IsStep t (login_unless t logged s)
  login_unless-IsStep true s e h = record { kept = h; past = λ _. h.honest e }
  login_unless-IsStep false s e h = log_in-IsStep s h

-- Whatever the panel answers, the client sends no request but a login before the panel has taken a
-- login of its, and it holds itself for logged in only after one.
pub request-IsAuthorised :
    (t : Transport) (r : HttpRequest) (s : Session)
    → IsAuthorised t s
    → IsAuthorised t (request t r s).1
unfolding request
request-IsAuthorised t r s h =
    then_retry t r (login_unless t s.logged_in s) (login_unless-IsStep t s.logged_in s refl h)
