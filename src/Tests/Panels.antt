-- ===== src/Tests/Panels.antt =====
-- A panel whose cookie has expired once: the first request is refused with 401, a login goes through,
-- and then everything does. An inbound has no statistics and two clients.
use abr_out.Prelude.{ℕ, arith, List, [], ◌∷◌, Option, none, some, true, false, ◌≡◌, refl}
use abr_out.Prelude.Text.{Text, codes}
use abr_out.Outside.{InboundSnapshot}
use abr_out.Xui.{
  Transport, Session, HttpRequest, Obj, Inbound, ClientObj, got, response, request, send_with_retry,
  log_in, update_client_enabled,
}
use abr_out.Xui.Authorised.{IsAuthorised, request-IsAuthorised}
use abr_out.Payout.Transfers.{Node, Logs, Scan, scan, goes_on}
use abr_out.Payout.Transfers.Ended.{IsSized, scan-ends}
use abr_out.Xui.Forgets.{update_client_enabled-forgets}

abbrev two_clients : Inbound
two_clients = record {
  id = some 7;
  up = some 5;
  down = some 6;
  enable = some true;
  client_stats = [];
  settings = some (some (codes "a") ∷ none ∷ some (codes "b") ∷ []);
}

abbrev body_for : HttpRequest → Obj
body_for (HttpRequest.get_inbound i) = Obj.inbound two_clients
body_for _ = Obj.nothing

abbrev panel : Transport
panel [] r = response 401 none
panel (r ∷ before) s = response 200 (some record { success = true; obj = body_for s })

abbrev session : Session
session = record { logged_in = false; sent = HttpRequest.list_inbounds ∷ [] }

abbrev started : Session
started = record { logged_in = false; sent = [] }

started-IsAuthorised : IsAuthorised panel started
started-IsAuthorised = record { ordered = refl; honest = λ h. cc }

request-IsAuthorised_example :
    IsAuthorised panel (request panel (HttpRequest.get_inbound 7) started).1
request-IsAuthorised_example =
    request-IsAuthorised panel (HttpRequest.get_inbound 7) started started-IsAuthorised

-- The clients that the panel holds, by the last update.
abbrev clients : List HttpRequest → ℕ → Option ClientObj
clients [] uuid = none
clients (HttpRequest.update_client inbound c ∷ before) uuid = some c
clients (r ∷ before) uuid = none

switches : (update_client_enabled panel 7 3 (codes "a") true session).0 ≡ got tt
unfolding update_client_enabled request send_with_retry log_in
switches = refl

update_client_enabled-forgets_example :
    (c : ClientObj) × (clients (update_client_enabled panel 7 3 (codes "a") true session).1.sent 3
      ≡ some c)
    × (c.enable ≡ true)
    × (c.total_gb ≡ 0)
    × (c.expiry_time ≡ 0)
update_client_enabled-forgets_example =
    update_client_enabled-forgets panel clients (λ before inbound c b h. refl) 7 3 (codes "a") true
      session switches

abbrev snapshot : InboundSnapshot
snapshot = record {
  inbound_id = 7;
  up = 5;
  down = 6;
  enable = true;
  clients =
      record { email = codes "a"; up = 0; down = 0 }
      ∷ record { email = codes "b"; up = 0; down = 0 }
      ∷ [];
}

-- A node that finds every range too long.
abbrev busy : Node
busy from to side = Logs.rate_limited

abbrev at_head : Scan
at_head = record { cursor = 5_000; scanned = 0; chunk_size = 2_000; events = [] }

scan-ends_example :
    (goes_on 100 10 (scan busy 5_001 100 10 at_head) ≡ false)
    × IsSized (scan busy 5_001 100 10 at_head)
scan-ends_example = scan-ends busy 5_001 100 10 at_head (omega arith, omega arith) (omega arith)
