-- ===== src/Outside.antt =====
-- What the program asks of the systems around it. The 3x-ui panel, which app/common/panel/
-- xui_client.py talks to, is a parameter: its answers, by request. What the program does to the
-- outside is a list of effects, newest first, kept beside the tables.
use abr_out.Prelude.{ℕ, List, ◌∷◌, Option, Bool, true, false}
use abr_out.Prelude.Int.{ℤ}
use abr_out.Prelude.Text.{Text}
use abr_out.Models.{Db}

-- `ClientTraffic` and `InboundSnapshot`.
pub record ClientTraffic : Type 0 where
  pub email : Text
  pub up : ℕ
  pub down : ℕ

pub record InboundSnapshot : Type 0 where
  pub inbound_id : ℕ
  pub up : ℕ
  pub down : ℕ
  pub enable : Bool
  pub clients : List ClientTraffic

-- The end of a call: done, the panel refused it (`XuiError`), or another exception.
pub data Reply : Type 0 where
  done refused unreachable : Reply

abbrev pub succeeded : Reply → Bool
succeeded Reply.done = true
succeeded _ = false

-- `none` and `false` stand for an exception.
pub record Panel : Type 0 where
  pub get_inbound_snapshot : ℕ → Option InboundSnapshot
  pub reset_inbound_clients_traffic : ℕ → Bool
  pub reset_all_inbounds_stat : Bool
  -- inbound, client uuid, email, enable
  pub update_client_enabled : ℕ → ℕ → Text → Bool → Reply
  -- `async with XuiClient()`
  pub login : Reply
  -- port, remark, external host; the id of the new inbound, if the panel gives one
  pub add_vless_tcp_inbound : ℕ → Text → Text → Reply × Option ℕ
  pub delete_inbound : ℕ → Reply
  -- inbound, client uuid, email, bytes, expiry in milliseconds, enable
  pub add_client : ℕ → ℕ → Text → ℕ → ℕ → Bool → Reply
  -- inbound, client uuid
  pub delete_client : ℕ → ℕ → Reply

-- The messages that the jobs send, by their text.
pub data Message : Type 0 where
  balance_exhausted balance_recovered : Message
  quota_reached : Text → Message
  payout_failed payout_sent payout_confirmed payout_reverted auto_withdrawal : Message
  listing_test_failed : ℕ → Text → Message
  listing_broken buyers_listing_broken buyers_listing_recovered : ℕ → Message
  new_listing listing_disabled listing_deleted price_raised : ℕ → Message
  -- listing, old host, new host
  listing_moved : ℕ → Text → Text → Message
  retested : Text → ℕ → Message
  topup_failed topup_dust : ℕ → Message
  topup_credited topup_partial : ℤ → ℕ → Message
  account_blocked account_unblocked : Message
  -- the amount, and the admin's note
  balance_changed : ℤ → Text → Message
  admin_message support_reply announcement : Text → Message

-- Telegram's answers: whether the message for this user was taken (`ok`). An exception is a no.
abbrev pub Telegram : Type 0
Telegram = ℕ → Message → Bool

pub data Effect : Type 0 where
  reset_clients : ℕ → Effect
  reset_all restart_xray : Effect
  set_enabled : ℕ → ℕ → Text → Bool → Effect
  add_inbound : ℕ → Text → Text → Effect
  remove_inbound : ℕ → Effect
  add_client : ℕ → ℕ → Text → ℕ → ℕ → Effect
  remove_client : ℕ → ℕ → Effect
  message : ℕ → Message → Effect
  announce : ℕ → ℕ → Effect
  broadcast : ℕ → Effect

pub record World : Type 0 where
  pub db : Db
  pub effects : List Effect

abbrev pub emit : Effect → World → World
emit e w = record w { effects = e ∷ w.effects }

-- A session with the panel that makes one request: the request is sent where the login goes through.
abbrev pub ask : Panel → Effect → Reply → World → Reply × World
ask panel e reply w = elim panel.login [
  | Reply.done ↦ (reply, emit e w)
  | Reply.refused ↦ (Reply.refused, w)
  | Reply.unreachable ↦ (Reply.unreachable, w)
]
