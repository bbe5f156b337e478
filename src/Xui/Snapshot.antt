-- ===== src/Xui/Snapshot.antt =====
-- `get_inbound_snapshot` of app/common/panel/xui_client.py, with its fallback to one lookup for each
-- client.
use abr_out.Prelude.{ℕ, List, [], ◌∷◌, Option, none, some, true, get_or}
use abr_out.Prelude.Text.{Text}
use abr_out.Outside.{ClientTraffic, InboundSnapshot}
use abr_out.Xui.{
  Transport, Session, HttpRequest, Answer, Body, Obj, Inbound, ClientStat, got, refused,
  unreachable, request, then_do,
}

-- The entries with an email; a counter that is missing is zero.
abbrev pub reading_of : Text → ClientStat → ClientTraffic
reading_of email t = record { email = email; up = get_or t.up 0; down = get_or t.down 0 }

abbrev pub with_reading : Option Text → ClientStat → List ClientTraffic → List ClientTraffic
with_reading none t rest = rest
with_reading (some []) t rest = rest
with_reading (some (c ∷ email)) t rest = reading_of (c ∷ email) t ∷ rest

unfoldable pub readings : List ClientStat → List ClientTraffic
readings [] = []
readings (t ∷ ts) = with_reading t.email t (readings ts)

-- The emails of `settings.clients`.
abbrev pub with_email : Option Text → List Text → List Text
with_email none rest = rest
with_email (some []) rest = rest
with_email (some (c ∷ email)) rest = (c ∷ email) ∷ rest

unfoldable pub emails_in : List (Option Text) → List Text
emails_in [] = []
emails_in (e ∷ es) = with_email e (emails_in es)

unfoldable pub emails_of : Option (List (Option Text)) → List Text
unfolding emails_in
emails_of none = []
emails_of (some es) = emails_in es

-- What a lookup makes of an answer: no entry where the panel refuses, zeros where it has none.
abbrev pub looked_up : Text → Obj → ClientTraffic
looked_up email (Obj.client t) = reading_of (get_or t.email email) t
looked_up email _ = record { email = email; up = 0; down = 0 }

abbrev pub lookup_answer : Text → Answer Body × Session → Answer (Option ClientTraffic) × Session
lookup_answer email (got b, s) = (got (some (looked_up email b.obj)), s)
lookup_answer email (refused, s) = (got none, s)
lookup_answer email (unreachable, s) = (unreachable, s)

abbrev pub append_found :
    Option ClientTraffic
    → Answer (List ClientTraffic) × Session
    → Answer (List ClientTraffic) × Session
append_found none rest = rest
append_found (some c) (got cs, s) = (got (c ∷ cs), s)
append_found (some c) (refused, s) = (refused, s)
append_found (some c) (unreachable, s) = (unreachable, s)

-- `obj` where the body has none.
abbrev pub no_inbound : Inbound
no_inbound = record {
  id = none;
  up = none;
  down = none;
  enable = none;
  client_stats = [];
  settings = none;
}

abbrev pub inbound_of : Obj → Inbound
inbound_of (Obj.inbound i) = i
inbound_of _ = no_inbound

abbrev pub snapshot_of : ℕ → Inbound → List ClientTraffic → InboundSnapshot
snapshot_of inbound_id i clients = record {
  inbound_id = get_or i.id inbound_id;
  up = get_or i.up 0;
  down = get_or i.down 0;
  enable = get_or i.enable true;
  clients = clients;
}

module _ (t : Transport) where
  -- `_get_client_traffic_by_email`
  unfoldable pub get_client_traffic_by_email :
      Text → Session → Answer (Option ClientTraffic) × Session
  unfolding request
  get_client_traffic_by_email email s =
      lookup_answer email (request t (HttpRequest.get_client_traffics email) s)

  unfoldable pub look_up_all : List Text → Session → Answer (List ClientTraffic) × Session
  unfolding get_client_traffic_by_email
  look_up_all [] s = (got [], s)
  look_up_all (email ∷ emails) s =
      then_do (get_client_traffic_by_email email s)
        (λ found s'. append_found found (look_up_all emails s'))

  abbrev pub clients_of :
      List ClientTraffic → Inbound → Session → Answer (List ClientTraffic) × Session
  clients_of [] i s = look_up_all (emails_of i.settings) s
  clients_of (c ∷ cs) i s = (got (c ∷ cs), s)

  -- `get_inbound_snapshot`
  unfoldable pub get_inbound_snapshot : ℕ → Session → Answer InboundSnapshot × Session
  unfolding request readings look_up_all emails_of
  get_inbound_snapshot inbound_id s =
      then_do (request t (HttpRequest.get_inbound inbound_id) s) (λ b s'.
        let i = inbound_of b.obj in
        then_do (clients_of (readings i.client_stats) i s')
          (λ clients s''. (got (snapshot_of inbound_id i clients), s'')))
