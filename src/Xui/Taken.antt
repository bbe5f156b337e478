-- ===== src/Xui/Taken.antt =====
-- What a call of app/common/panel/xui_client.py that goes through has sent.
use abr_out.Prelude.{List, ◌∷◌, Bool, true, false, ◌≡◌, ◌≢◌, refl}
use abr_out.Xui.{
  Transport, Session, HttpRequest, Answer, Body, got, refused, unreachable, mark_login, checked,
  send_once, send_with_retry, request, then_do, login_unless, retry_if, log_in,
}

-- The last request that was sent is this one, and the panel took it with this body.
pub record IsTaken (t : Transport) (r : HttpRequest) (b : Body) (s : Session) : Type 0 where
  pub before : List HttpRequest
  pub last : s.sent ≡ r ∷ before
  pub taken : checked (t before r) ≡ got b

module _ (t : Transport) (r : HttpRequest) where
  send_once-IsTaken :
      (s : Session) (b : Body) → (send_once t r s).0 ≡ got b → IsTaken t r b (send_once t r s).1
  unfolding send_once
  send_once-IsTaken s b h = record { before = s.sent; last = refl; taken = h }

  then_once-IsTaken :
      (a : Answer Body × Session) (b : Body)
      → (then_do a (λ x. send_once t r)).0 ≡ got b
      → IsTaken t r b (then_do a (λ x. send_once t r)).1
  then_once-IsTaken (got x, s) b h = send_once-IsTaken s b h
  then_once-IsTaken (refused, s) b h = cc
  then_once-IsTaken (unreachable, s) b h = cc

  retry_if-IsTaken :
      (again : Bool) (s : Session) (b : Body)
      → let s' : Session = record s { sent = r ∷ s.sent } in
        (retry_if t r again (t s.sent r) s').0 ≡ got b
        → IsTaken t r b (retry_if t r again (t s.sent r) s').1
  retry_if-IsTaken true s b h = then_once-IsTaken (log_in t record s { sent = r ∷ s.sent }) b h
  retry_if-IsTaken false s b h = record { before = s.sent; last = refl; taken = h }

  then_retry-IsTaken :
      (a : Answer Body × Session) (b : Body)
      → (then_do a (λ x. send_with_retry t r)).0 ≡ got b
      → IsTaken t r b (then_do a (λ x. send_with_retry t r)).1
  unfolding send_with_retry
  then_retry-IsTaken (got x, s) b h = retry_if-IsTaken _ s b h
  then_retry-IsTaken (refused, s) b h = cc
  then_retry-IsTaken (unreachable, s) b h = cc

  -- A request that goes through was sent last, and its answer is the panel's.
  pub request-IsTaken :
      (s : Session) (b : Body) → (request t r s).0 ≡ got b → IsTaken t r b (request t r s).1
  unfolding request
  request-IsTaken s b h = then_retry-IsTaken (login_unless t s.logged_in s) b h

-- A panel that refuses nothing.
module _ (t : Transport)
    (never : (before : List HttpRequest) (r : HttpRequest) → checked (t before r) ≢ refused) where
  then-never :
      (a : Answer Body × Session) (next : Body → Session → Answer Body × Session)
      → a.0 ≢ refused
      → ((b : Body) (s : Session) → (next b s).0 ≢ refused)
      → (then_do a next).0 ≢ refused
  then-never (got b, s) next h k = k b s
  then-never (refused, s) next h k = h
  then-never (unreachable, s) next h k = λ e. cc

  marked-never : (o : Answer Body) (s : Session) → o ≢ refused → (mark_login (o, s)).0 ≢ refused
  marked-never (got b) s h = λ e. cc
  marked-never refused s h = h
  marked-never unreachable s h = λ e. cc

  log_in-never : (s : Session) → (log_in t s).0 ≢ refused
  unfolding log_in
  log_in-never s = marked-never _ _ (never s.sent HttpRequest.login)

  login_unless-never : (logged : Bool) (s : Session) → (login_unless t logged s).0 ≢ refused
  login_unless-never true s = λ e. cc
  login_unless-never false s = log_in-never s

  retry_if-never :
      (r : HttpRequest) (again : Bool) (s : Session)
      → (retry_if t r again (t s.sent r) (record s { sent = r ∷ s.sent })).0 ≢ refused
  unfolding send_once
  retry_if-never r true s =
      then-never (log_in t record s { sent = r ∷ s.sent }) _ (log_in-never _)
        (λ b s'. never s'.sent r)
  retry_if-never r false s = never s.sent r

  pub request-never : (r : HttpRequest) (s : Session) → (request t r s).0 ≢ refused
  unfolding request send_with_retry
  request-never r s =
      then-never (login_unless t s.logged_in s) _ (login_unless-never s.logged_in s)
        (λ b s'. retry_if-never r _ s')
