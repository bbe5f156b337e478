-- ===== src/Broadcasts/Delivered.antt =====
-- What a run of app/worker/jobs/broadcast.py comes to.
use abr_out.Prelude.{
  ℕ, suc, ◌+◌, ◌%◌, List, [], ◌∷◌, some, not, ◌==◌, ◌≡◌, refl, ◌∙◌, ap, inl, inr, arith, Bool-cases,
  length,
}
use abr_out.Prelude.Text.{Text}
use abr_out.Prelude.Rows.{select}
use abr_out.Prelude.Updates.{update_rows-absorb}
use abr_out.Models.{Broadcast}
use abr_out.Outside.{World, Effect, Message, Telegram}
use abr_out.Broadcasts.{
  deliver, recipients, run_broadcast, broadcast_tick, next_broadcast, set_done, set_progress,
  set_running, write_broadcast, flush,
}

-- One message to each, in this order, the newest effect first.
abbrev pub announced : Text → List ℕ → List Effect → List Effect
announced text [] effects = effects
announced text (u ∷ us) effects =
    announced text us (Effect.message u (Message.announcement text) ∷ effects)

-- How many of them took it, and how many did not.
unfoldable pub taken : Telegram → Text → List ℕ → ℕ
unfolding select
taken telegram text us = length (select (λ u. telegram u (Message.announcement text)) us)

unfoldable pub refused : Telegram → Text → List ℕ → ℕ
unfolding select
refused telegram text us = length (select (λ u. not (telegram u (Message.announcement text))) us)

pub taken-refused :
    (telegram : Telegram) (text : Text) (us : List ℕ)
    → taken telegram text us + refused telegram text us ≡ length us
unfolding taken refused
taken-refused telegram text [] = refl
taken-refused telegram text (u ∷ us) = ground (arith, taken-refused telegram text us)

-- The world after one UPDATE of the row and these messages.
abbrev pub outcome : ℕ → ℕ → Text → List ℕ → ℕ → ℕ → World → World
outcome now bc_id text us sent failed w = record {
  db = (write_broadcast bc_id (set_done now sent failed) w).db;
  effects = announced text us w.effects;
}

module _ (telegram : Telegram) (now bc_id : ℕ) (text : Text) where
  absorbed :
      (f : Broadcast → Broadcast) (us : List ℕ) (sent failed : ℕ) (w : World)
      → ((b : Broadcast) → (f b).id ≡ b.id)
      → ((b : Broadcast) → set_done now sent failed (f b) ≡ set_done now sent failed b)
      → outcome now bc_id text us sent failed (write_broadcast bc_id f w)
        ≡ outcome now bc_id text us sent failed w
  absorbed f us sent failed w keeps over =
      ap
        (λ rows. record {
          db = record w.db { broadcasts = rows };
          effects = announced text us w.effects;
        })
        (update_rows-absorb (λ b. b.id == bc_id) f (set_done now sent failed) w.db.broadcasts
          (λ b. ap (λ i. i == bc_id) (keeps b)) over)

  flushed :
      (us : List ℕ) (s f sent failed : ℕ) (w : World)
      → outcome now bc_id text us sent failed (flush bc_id s f w)
        ≡ outcome now bc_id text us sent failed w
  flushed us s f sent failed w = elim (Bool-cases ((s + f) % 50 == 0)) [
    | inl due ↦ rw due (absorbed (set_progress s f) us sent failed w (λ b. refl) (λ b. refl))
    | inr not_due ↦ rw not_due refl
  ]

  deliver-outcome :
      (us : List ℕ) (sent failed : ℕ) (w : World)
      → deliver telegram now bc_id text us sent failed w
        ≡ outcome now bc_id text us
            (sent + taken telegram text us)
            (failed + refused telegram text us)
            w
  unfolding deliver taken refused
  deliver-outcome [] sent failed w =
      let s : sent + 0 ≡ sent = omega arith in
      let f : failed + 0 ≡ failed = omega arith in rw (s, f) refl
  deliver-outcome (u ∷ us) sent failed w =
      elim (Bool-cases (telegram u (Message.announcement text))) [
        | inl took ↦
            let sum : sent + 1 + taken telegram text us ≡ sent + suc (taken telegram text us) =
              omega arith in
            rw took (
              deliver-outcome us (sent + 1) failed _
              ∙ (flushed us (sent + 1) failed _ _ _ ∙ rw sum refl))
        | inr not_took ↦
            let sum : failed + 1 + refused telegram text us
                ≡ failed + suc (refused telegram text us) =
              omega arith in
            rw not_took (
              deliver-outcome us sent (failed + 1) _
              ∙ (flushed us sent (failed + 1) _ _ _ ∙ rw sum refl))
      ]

-- A run of the broadcast job that finds a broadcast sends its text once to each user of its audience,
-- in the order of the table, whatever was sent before. For the tables it comes to one UPDATE, of
-- that broadcast: it is done, with the messages that Telegram took and those that it did not.
pub broadcast_tick-refines :
    (telegram : Telegram) (now : ℕ) (bc : Broadcast) (w : World)
    → next_broadcast w.db ≡ some bc
    → let us = recipients w.db bc in
      broadcast_tick telegram now w
      ≡ outcome now bc.id bc.text us (taken telegram bc.text us) (refused telegram bc.text us) w
unfolding broadcast_tick run_broadcast
broadcast_tick-refines telegram now bc w h =
    let us = recipients w.db bc in
    let zero_s : 0 + taken telegram bc.text us ≡ taken telegram bc.text us = omega arith in
    let zero_f : 0 + refused telegram bc.text us ≡ refused telegram bc.text us = omega arith in
    rw (h, broadcast_tick)
      (deliver-outcome telegram now bc.id bc.text (recipients w.db bc) 0 0 _
        ∙ rw zero_s (
            rw zero_f (
              absorbed telegram now bc.id bc.text set_running (recipients w.db bc) _ _ w (λ b. refl)
                (λ b. refl))))
