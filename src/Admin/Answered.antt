-- ===== src/Admin/Answered.antt =====
-- The unanswered messages of `list_support` of app/api/routes/admin.py.
use mathlib.Core.Path.{fun_ext, subst}
use abr_out.Prelude.{
  sym, ap, ◌∙◌, if◌then◌else◌, ℕ, List, ◌∷◌, Option, none, some, Bool, true, not, ◌&&◌, ◌==◌, ◌≡◌,
  inl, inr, arith, Bool-cases,
}
use abr_out.Prelude.Text.{Text}
use abr_out.Prelude.Rows.{select, exists_row, first_row}
use abr_out.Models.{Db, SupportMessage, is_inbound}
use abr_out.Outside.{World, Telegram}
use abr_out.Prelude.Keyed.{select-select}
use abr_out.Http.{HttpError, ok, fail}
use abr_out.Admin.{reply_support, reply_to, is_listed, outbound_message, is_message_text}

-- The messages that the list shows as unanswered.
abbrev pub unanswered : Db → List SupportMessage
unanswered db = select (is_listed true db.support_messages) db.support_messages

listed_after :
    (id now admin user_id sid : ℕ) (text : Text) (rows : List SupportMessage) (x : SupportMessage)
    → is_listed true (outbound_message id now admin user_id text (some sid) ∷ rows) x
      ≡ (is_listed true rows x && not (x.id == sid))
unfolding exists_row
listed_after id now admin user_id sid text rows x = ground arith

unanswered-reply :
    (id now admin user_id sid : ℕ) (text : Text) (db : Db)
    → let m = outbound_message id now admin user_id text (some sid) in
      unanswered (record db { support_messages = m ∷ db.support_messages })
      ≡ select (λ x. not (x.id == sid)) (unanswered db)
unfolding select
unanswered-reply id now admin user_id sid text db =
    let rows = db.support_messages in
    ap (λ p. select p rows) (fun_ext (listed_after id now admin user_id sid text rows))
    ∙ sym (select-select (λ (x : SupportMessage). not (x.id == sid)) (is_listed true rows) rows)

replied :
    (telegram : Telegram) (id now admin sid : ℕ) (text : Text) (original : Option SupportMessage)
    (w : World) (sent : Bool)
    → (reply_to telegram id now admin sid text original w).0 ≡ ok sent
    → unanswered (reply_to telegram id now admin sid text original w).1.db
      ≡ select (λ m. not (m.id == sid)) (unanswered w.db)
unfolding reply_to
replied telegram id now admin sid text none w sent h = cc
replied telegram id now admin sid text (some original) w sent h =
    elim (Bool-cases (is_inbound original.direction)) [
      | inl received ↦
          rw (received, reply_to) (unanswered-reply id now admin original.user_id sid text w.db)
      | inr outbound ↦ absurd (ground (arith, outbound, h))
    ]

-- A reply that went through takes the message that it answers out of the unanswered ones of the
-- support list, and none besides, whether or not Telegram took it.
pub reply_support-unanswered :
    (telegram : Telegram) (id now admin sid : ℕ) (text : Text) (w : World) {sent : Bool}
    → (reply_support telegram id now admin sid text w).0 ≡ ok sent
    → unanswered (reply_support telegram id now admin sid text w).1.db
      ≡ select (λ m. not (m.id == sid)) (unanswered w.db)
unfolding reply_support
reply_support-unanswered telegram id now admin sid text w {sent} h =
    elim (Bool-cases (is_message_text text)) [
      | inr wrong ↦ absurd (ground (arith, wrong, h))
      | inl right ↦
          rw (right, reply_support)
            (replied telegram id now admin sid text _ w sent (
              subst
                (λ b.
                  (if not b
                    then (fail HttpError.invalid_body, w)
                    else reply_to telegram id now admin sid text
                        (first_row (λ m. m.id == sid) w.db.support_messages) w).0
                  ≡ ok sent)
                right h))
    ]
