-- ===== src/Xui.antt =====
-- app/common/panel/xui_client.py: the client of the 3x-ui panel. The panel is a function of what it
-- was sent before and of the request. A body stands for the fields that are read of it; `none` is a
-- field that is missing. Log lines are left out.
pub mod Authorised
pub mod Taken
pub mod Forgets
pub mod Snapshot
pub mod Covered
use abr_out.Prelude.{
  ℕ, ◌+◌, List, [], ◌∷◌, Option, none, some, Bool, true, false, not, ◌&&◌, ◌||◌, ◌==◌, leb, get_or,
  if◌then◌else◌,
}
use abr_out.Prelude.Int.{ℤ, pos, pos_part}
use abr_out.Prelude.Text.{Text}
use abr_out.Outside.{ClientTraffic, InboundSnapshot, Reply}

-- `client_obj`, the fields that are not constant.
pub record ClientObj : Type 0 where
  pub id : ℕ
  pub email : Text
  pub total_gb : ℕ
  pub expiry_time : ℕ
  pub enable : Bool

-- `externalProxy`
pub record ExternalProxy : Type 0 where
  pub dest : Text
  pub port : ℕ

-- `payload` of an inbound, the fields that are not constant.
pub record InboundPayload : Type 0 where
  pub remark : Text
  pub port : ℕ
  pub external_proxy : Option ExternalProxy

pub data HttpRequest : Type 0 where
  login list_inbounds reset_all_traffics restart_xray_service : HttpRequest
  add_inbound : InboundPayload → HttpRequest
  delete_inbound get_inbound reset_all_client_traffics : ℕ → HttpRequest
  -- the inbound, and its client
  add_client : ℕ → ClientObj → HttpRequest
  update_client : ℕ → ClientObj → HttpRequest
  delete_client : ℕ → ℕ → HttpRequest
  get_client_traffics : Text → HttpRequest

-- An entry of `clientStats`, or the `obj` of a traffic lookup.
pub record ClientStat : Type 0 where
  pub email : Option Text
  pub up : Option ℕ
  pub down : Option ℕ

-- `obj` of an inbound; `settings` is the list of emails in its text, `none` where that is no JSON.
pub record Inbound : Type 0 where
  pub id : Option ℕ
  pub up : Option ℕ
  pub down : Option ℕ
  pub enable : Option Bool
  pub client_stats : List ClientStat
  pub settings : Option (List (Option Text))

pub data Obj : Type 0 where
  nothing : Obj
  inbound : Inbound → Obj
  inbounds : List Inbound → Obj
  client : ClientStat → Obj

pub record Body : Type 0 where
  pub success : Bool
  pub obj : Obj

-- What a request comes to: an exception of the transport, or a status with a body; `none` is a body
-- that is no JSON object.
pub data HttpResult : Type 0 where
  transport_error : HttpResult
  response : ℕ → Option Body → HttpResult

abbrev pub Transport : Type 0
Transport = List HttpRequest → HttpRequest → HttpResult

-- The client: whether it is logged in, and what it has sent, newest first.
pub record Session : Type 0 where
  pub logged_in : Bool
  pub sent : List HttpRequest

-- The value of a call, a XuiError, or another exception.
pub data Answer (A : Type 0) : Type 0 where
  got : A → Answer A
  refused unreachable : Answer A

abbrev pub send : Transport → HttpRequest → Session → HttpResult × Session
send t r s = (t s.sent r, record s { sent = r ∷ s.sent })

abbrev pub accepted : Body → Answer Body
accepted b = if b.success then got b else refused

-- `raise_for_status()`, `json()` and the test of `success`.
abbrev pub checked : HttpResult → Answer Body
checked transport_error = unreachable
checked (response status none) = unreachable
checked (response status (some b)) =
    if leb 200 status && leb status 299 then accepted b else unreachable

abbrev pub is_unauthorised : HttpResult → Bool
is_unauthorised transport_error = false
is_unauthorised (response status body) = status == 401 || status == 403

abbrev pub mark_login : Answer Body × Session → Answer Body × Session
mark_login (got b, s) = (got b, record s { logged_in = true })
mark_login (refused, s) = (refused, s)
mark_login (unreachable, s) = (unreachable, s)

-- The next step, where the one before went through.
abbrev pub then_do :
    {A B : Type 0} → Answer A × Session → (A → Session → Answer B × Session) → Answer B × Session
then_do (got a, s) next = next a s
then_do (refused, s) next = (refused, s)
then_do (unreachable, s) next = (unreachable, s)

abbrev pub only_done : Answer Body × Session → Answer Unit × Session
only_done a = then_do a (λ b s. (got tt, s))

-- `external_port or port`
abbrev pub port_or : Option ℕ → ℕ → ℕ
port_or none port = port
port_or (some p) port = if p == 0 then port else p

abbrev pub proxy_of : Option Text → Option ℕ → ℕ → Option ExternalProxy
proxy_of none external_port port = none
proxy_of (some []) external_port port = none
proxy_of (some (c ∷ host)) external_port port =
    some record { dest = c ∷ host; port = port_or external_port port }

abbrev pub inbound_id : Obj → Option ℕ
inbound_id (Obj.inbound i) = i.id
inbound_id _ = none

abbrev pub inbound_list : Obj → List Inbound
inbound_list (Obj.inbounds is) = is
inbound_list _ = []

module _ (t : Transport) where
  -- `login`
  unfoldable pub log_in : Session → Answer Body × Session
  log_in s = let (result, s') = send t HttpRequest.login s in mark_login (checked result, s')

  abbrev pub login_unless : Bool → Session → Answer Body × Session
  login_unless true s = (got record { success = true; obj = Obj.nothing }, s)
  login_unless false s = log_in s

  unfoldable pub send_once : HttpRequest → Session → Answer Body × Session
  send_once r s = let (result, s') = send t r s in (checked result, s')

  -- Once more after a new login, where the panel wants one.
  abbrev pub retry_if : HttpRequest → Bool → HttpResult → Session → Answer Body × Session
  retry_if r true result s = then_do (log_in s) (λ b. send_once r)
  retry_if r false result s = (checked result, s)

  unfoldable pub send_with_retry : HttpRequest → Session → Answer Body × Session
  unfolding log_in send_once
  send_with_retry r s =
      let (result, s') = send t r s in retry_if r (is_unauthorised result) result s'

  -- `_request`
  unfoldable pub request : HttpRequest → Session → Answer Body × Session
  unfolding send_with_retry log_in
  request r s = then_do (login_unless s.logged_in s) (λ b. send_with_retry r)

  -- `add_vless_tcp_inbound`: the id of the new inbound, if the panel gives one.
  unfoldable pub add_vless_tcp_inbound :
      ℕ → Text → Option Text → Option ℕ → Session → Answer (Option ℕ) × Session
  unfolding request
  add_vless_tcp_inbound port remark external_host external_port s =
      let payload : InboundPayload = record {
        remark = remark;
        port = port;
        external_proxy = proxy_of external_host external_port port;
      } in
      then_do (request (HttpRequest.add_inbound payload) s) (λ b s'. (got (inbound_id b.obj), s'))

  -- `max(0, int(total_bytes))`
  unfoldable pub add_client_call : ℕ → ℕ → Text → ℤ → ℕ → Bool → Session → Answer Unit × Session
  unfolding request
  add_client_call inbound_id client_uuid email total_bytes expiry_ms enable s =
      let obj : ClientObj = record {
        id = client_uuid;
        email = email;
        total_gb = pos_part total_bytes;
        expiry_time = expiry_ms;
        enable = enable;
      } in
      only_done (request (HttpRequest.add_client inbound_id obj) s)

  unfoldable pub update_client_enabled : ℕ → ℕ → Text → Bool → Session → Answer Unit × Session
  unfolding request
  update_client_enabled inbound_id client_uuid email enable s =
      let obj : ClientObj = record {
        id = client_uuid;
        email = email;
        total_gb = 0;
        expiry_time = 0;
        enable = enable;
      } in
      only_done (request (HttpRequest.update_client inbound_id obj) s)

  -- A call that only sends its request.
  unfoldable pub call : HttpRequest → Session → Answer Unit × Session
  unfolding request
  call r s = only_done (request r s)

  abbrev pub delete_inbound_call : ℕ → Session → Answer Unit × Session
  delete_inbound_call inbound_id = call (HttpRequest.delete_inbound inbound_id)

  abbrev pub delete_client_call : ℕ → ℕ → Session → Answer Unit × Session
  delete_client_call inbound_id client_uuid =
      call (HttpRequest.delete_client inbound_id client_uuid)

  abbrev pub reset_inbound_clients_traffic : ℕ → Session → Answer Unit × Session
  reset_inbound_clients_traffic inbound_id = call (HttpRequest.reset_all_client_traffics inbound_id)

  abbrev pub reset_all_inbounds_stat : Session → Answer Unit × Session
  reset_all_inbounds_stat = call HttpRequest.reset_all_traffics

  abbrev pub restart_xray : Session → Answer Unit × Session
  restart_xray = call HttpRequest.restart_xray_service

  unfoldable pub list_inbounds_call : Session → Answer (List Inbound) × Session
  unfolding request
  list_inbounds_call s =
      then_do (request HttpRequest.list_inbounds s) (λ b s'. (got (inbound_list b.obj), s'))
