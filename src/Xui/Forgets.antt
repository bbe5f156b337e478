-- ===== src/Xui/Forgets.antt =====
-- What `update_client_enabled` of app/common/panel/xui_client.py leaves of a client's limits.
use abr_out.Prelude.{ℕ, List, ◌∷◌, Option, some, Bool, ◌≡◌, refl}
use abr_out.Prelude.Text.{Text}
use abr_out.Xui.Taken.{IsTaken, request-IsTaken}
use abr_out.Xui.{
  Transport, Session, HttpRequest, Answer, Body, ClientObj, got, refused, unreachable, checked,
  request, update_client_enabled, only_done,
}

-- A call that goes through has sent its request last, and the panel took it.
done-IsTaken :
    (t : Transport) (r : HttpRequest) (a : Answer Body × Session)
    → ((b : Body) → a.0 ≡ got b → IsTaken t r b a.1)
    → (only_done a).0 ≡ got tt
    → (b : Body) × IsTaken t r b (only_done a).1
done-IsTaken t r (got b, s) h e = (b, h b refl)
done-IsTaken t r (refused, s) h e = cc
done-IsTaken t r (unreachable, s) h e = cc

-- If the panel replaces a client by the one that an update sends, as 3x-ui does, then a client that
-- was switched on or off through the client has neither a limit of traffic nor an expiry there any
-- more, whatever it was sold with.
pub update_client_enabled-forgets :
    (t : Transport) (clients : List HttpRequest → ℕ → Option ClientObj)
    → ((before : List HttpRequest) (inbound : ℕ) (c : ClientObj) (b : Body)
        → checked (t before (HttpRequest.update_client inbound c)) ≡ got b
        → clients (HttpRequest.update_client inbound c ∷ before) c.id ≡ some c)
    → (inbound uuid : ℕ) (email : Text) (enable : Bool) (s : Session)
    → (update_client_enabled t inbound uuid email enable s).0 ≡ got tt
    → (c : ClientObj) × (clients (update_client_enabled t inbound uuid email enable s).1.sent uuid
        ≡ some c)
      × (c.enable ≡ enable)
      × (c.total_gb ≡ 0)
      × (c.expiry_time ≡ 0)
unfolding update_client_enabled
update_client_enabled-forgets t clients replaces inbound uuid email enable s h =
    let c : ClientObj = record {
      id = uuid;
      email = email;
      total_gb = 0;
      expiry_time = 0;
      enable = enable;
    } in
    let r = HttpRequest.update_client inbound c in
    let (b, sent) = done-IsTaken t r (request t r s) (request-IsTaken t r s) h in
    (c, rw sent.last (replaces sent.before inbound c b sent.taken), refl, refl, refl)
