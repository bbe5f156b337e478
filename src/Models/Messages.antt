-- ===== src/Models/Messages.antt =====
-- Support messages and broadcasts of app/common/db/models.py, with the audience filter that a
-- broadcast stores as JSON.
use abr_out.Prelude.{ℕ, Option, Bool, true, false}
use abr_out.Prelude.Text.{Text}

pub data SupportDirection : Type 0 where
  in_ out : SupportDirection

pub data BroadcastStatus : Type 0 where
  queued running done failed : BroadcastStatus

pub data AudienceKind : Type 0 where
  all buyers sellers date_range : AudienceKind

abbrev pub is_inbound : SupportDirection → Bool
is_inbound SupportDirection.in_ = true
is_inbound SupportDirection.out = false

-- `status.in_([queued, running])`
abbrev pub broadcast_open : BroadcastStatus → Bool
broadcast_open BroadcastStatus.queued = true
broadcast_open BroadcastStatus.running = true
broadcast_open _ = false

-- `Audience` of app/api/routes/admin.py.
pub record Audience : Type 0 where
  pub kind : AudienceKind
  pub date_from : Option ℕ
  pub date_to : Option ℕ

pub record SupportMessage : Type 0 where
  pub id : ℕ
  pub user_id : ℕ
  pub direction : SupportDirection
  pub text : Text
  pub replied_by_admin_id : Option ℕ
  pub replied_to_id : Option ℕ
  pub created_at : ℕ

-- `audience` is what `json.loads` makes of the column; `none` is a text that is no JSON.
pub record Broadcast : Type 0 where
  pub id : ℕ
  pub admin_id : ℕ
  pub text : Text
  pub audience : Option Audience
  pub total : ℕ
  pub sent : ℕ
  pub failed : ℕ
  pub status : BroadcastStatus
  pub created_at : ℕ
  pub finished_at : Option ℕ
