-- ===== src/Xui/Covered.antt =====
-- What `get_inbound_snapshot` of app/common/panel/xui_client.py reads.
use abr_out.Prelude.{ℕ, List, [], ◌≡◌, ◌≢◌, map}
use abr_out.Prelude.Text.{Text}
use abr_out.Outside.{ClientTraffic, InboundSnapshot}
use abr_out.Xui.{Transport, HttpRequest, Body, got, checked}
use abr_out.Xui.Snapshot.{readings, emails_of, inbound_of}

abbrev pub email_list : List ClientTraffic → List Text
email_list cs = map (λ c. c.email) cs

-- What a snapshot of an inbound shows, by the panel's answer.
pub record Covers (t : Transport) (inbound_id : ℕ) (snap : InboundSnapshot) : Type 0 where
  pub before : List HttpRequest
  pub body : Body
  pub answer : checked (t before (HttpRequest.get_inbound inbound_id)) ≡ got body
  pub by_stats :
      readings (inbound_of body.obj).client_stats ≢ []
      → snap.clients ≡ readings (inbound_of body.obj).client_stats
  pub by_lookups :
      readings (inbound_of body.obj).client_stats ≡ []
      → email_list snap.clients ≡ emails_of (inbound_of body.obj).settings
