-- ===== src/Broadcasts.antt =====
-- Broadcasts: their routes in app/api/routes/admin.py and the job app/worker/jobs/broadcast.py. The
-- pauses that keep to Telegram's rate, and log lines, are left out.
pub mod Delivered
pub mod Drained
use abr_out.Prelude.{
  ℕ, ◌+◌, ◌%◌, List, [], ◌∷◌, Option, none, some, Bool, true, false, not, ◌&&◌, ◌==◌, leb, ltb,
  length, map, if◌then◌else◌,
}
use abr_out.Prelude.Text.{Text}
use abr_out.Prelude.Rows.{select, first_row, exists_row, update_rows}
use abr_out.Prelude.Pages.{order_by}
use abr_out.Models.{Db, User, Audience, AudienceKind, Broadcast, BroadcastStatus, broadcast_open}
use abr_out.Outside.{World, Effect, Message, Telegram, emit}
use abr_out.Http.{HttpError, Outcome, ok, fail, ◌>>=◌, ◌>>◌, raise_if}
use abr_out.Admin.{is_message_text}

abbrev pub is_after : Option ℕ → ℕ → Bool
is_after none time = true
is_after (some from) time = leb from time

abbrev pub is_before : Option ℕ → ℕ → Bool
is_before none time = true
is_before (some to) time = leb time to

abbrev pub has_kind : Db → AudienceKind → Audience → User → Bool
has_kind db AudienceKind.all a u = true
has_kind db AudienceKind.buyers a u = exists_row (λ c. c.buyer_user_id == u.telegram_id) db.configs
has_kind db AudienceKind.sellers a u =
    exists_row (λ l. l.seller_user_id == u.telegram_id) db.listings
has_kind db AudienceKind.date_range a u =
    is_after a.date_from u.created_at && is_before a.date_to u.created_at

-- `_audience_filters`
abbrev pub audience_filters : Db → Audience → User → Bool
audience_filters db a u = not u.is_blocked && has_kind db a.kind a u

-- `broadcast_preview`
unfoldable pub broadcast_preview : Audience → Db → ℕ
unfolding select exists_row
broadcast_preview a db = length (select (audience_filters db a) db.users)

unfoldable pub new_broadcast : ℕ → ℕ → ℕ → Text → Audience → Db → Broadcast
unfolding select exists_row
new_broadcast id now admin text a db = record {
  id = id;
  admin_id = admin;
  text = text;
  audience = some a;
  total = length (select (audience_filters db a) db.users);
  sent = 0;
  failed = 0;
  status = BroadcastStatus.queued;
  created_at = now;
  finished_at = none;
}

-- `create_broadcast`: the row, and the tables with it.
unfoldable pub create_broadcast : ℕ → ℕ → ℕ → Text → Audience → Db → Outcome (Broadcast × Db)
unfolding new_broadcast
create_broadcast id now admin text a db = do
  raise_if (not (is_message_text text)) HttpError.invalid_body
  let bc = new_broadcast id now admin text a db
  ok (bc, record db { broadcasts = bc ∷ db.broadcasts })

-- `get_broadcast`
unfoldable pub get_broadcast : ℕ → Db → Outcome Broadcast
get_broadcast bid db = elim (first_row (λ b. b.id == bid) db.broadcasts) [
  | none ↦ fail HttpError.broadcast_not_found
  | some b ↦ ok b
]

abbrev pub write_broadcast : ℕ → (Broadcast → Broadcast) → World → World
write_broadcast bc_id f w = record w {
  db = record w.db { broadcasts = update_rows (λ b. b.id == bc_id) f w.db.broadcasts };
}

abbrev pub set_running : Broadcast → Broadcast
set_running b = record b { status = BroadcastStatus.running }

abbrev pub set_progress : ℕ → ℕ → Broadcast → Broadcast
set_progress sent failed b = record b { sent = sent; failed = failed }

abbrev pub set_done : ℕ → ℕ → ℕ → Broadcast → Broadcast
set_done now sent failed b = record b {
  sent = sent;
  failed = failed;
  status = BroadcastStatus.done;
  finished_at = some now;
}

-- `_update_progress` and `_finalize`; a row that is gone is not written.
abbrev pub update_progress : ℕ → ℕ → ℕ → World → World
update_progress bc_id sent failed = write_broadcast bc_id (set_progress sent failed)

abbrev pub finalize : ℕ → ℕ → ℕ → ℕ → World → World
finalize now bc_id sent failed = write_broadcast bc_id (set_done now sent failed)

abbrev pub flush : ℕ → ℕ → ℕ → World → World
flush bc_id sent failed w =
    if (sent + failed) % 50 == 0 then update_progress bc_id sent failed w else w

-- The next broadcast: the oldest that is queued or running.
unfoldable pub next_broadcast : Db → Option Broadcast
unfolding select order_by first_row
next_broadcast db =
    first_row (λ b. true)
      (order_by (λ (a : Broadcast) b. ltb a.created_at b.created_at)
        (select (λ b. broadcast_open b.status) db.broadcasts))

abbrev pub everyone : Audience
everyone = record { kind = AudienceKind.all; date_from = none; date_to = none }

abbrev pub audience_of : Option Audience → Audience
audience_of none = everyone
audience_of (some a) = a

unfoldable pub recipients : Db → Broadcast → List ℕ
unfolding select exists_row
recipients db bc =
    map (λ u. u.telegram_id) (select (audience_filters db (audience_of bc.audience)) db.users)

module _ (telegram : Telegram) (now : ℕ) where
  -- The loop over the recipients, with what follows it.
  unfoldable pub deliver : ℕ → Text → List ℕ → ℕ → ℕ → World → World
  deliver bc_id text [] sent failed w = finalize now bc_id sent failed w
  deliver bc_id text (uid ∷ rows) sent failed w =
      let taken = telegram uid (Message.announcement text) in
      let sent' = if taken then sent + 1 else sent in
      let failed' = if taken then failed else failed + 1 in
      deliver bc_id text rows sent' failed'
        (flush bc_id sent' failed' (emit (Effect.message uid (Message.announcement text)) w))

  unfoldable pub run_broadcast : Broadcast → World → World
  unfolding deliver recipients
  run_broadcast bc w =
      deliver bc.id bc.text (recipients w.db bc) 0 0 (write_broadcast bc.id set_running w)

  -- `broadcast_tick`
  unfoldable pub broadcast_tick : World → World
  unfolding next_broadcast run_broadcast
  broadcast_tick w = elim (next_broadcast w.db) [ none ↦ w | some bc ↦ run_broadcast bc w ]
