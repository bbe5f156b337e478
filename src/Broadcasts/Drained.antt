-- ===== src/Broadcasts/Drained.antt =====
-- Runs of app/worker/jobs/broadcast.py one after the other, and a broadcast from its creation on.
use mathlib.Core.Path.{subst}
use abr_out.Prelude.{
  ℕ, suc, ◌+◌, ◌≤◌, ◌<◌, ltb, List, [], ◌∷◌, All, All-mono, none, some, Bool, true, ◌&&◌, ◌==◌,
  ==-refl, ◌≡◌, refl, sym, ◌∙◌, ap, inl, inr, arith, Bool-cases, Option-cases, length, map,
}
use abr_out.Prelude.Text.{Text}
use abr_out.Prelude.Rows.{select, first_row, exists_row, update_rows}
use abr_out.Prelude.Pages.{order_by, insert_row, All-order_by, order_by-length}
use abr_out.Models.{Db, Broadcast, BroadcastStatus, broadcast_open, Audience}
use abr_out.Outside.{World, Telegram}
use abr_out.Http.{ok}
use abr_out.Broadcasts.{
  broadcast_tick, next_broadcast, set_done, recipients, broadcast_preview, create_broadcast,
  new_broadcast, get_broadcast,
}
use abr_out.Broadcasts.Delivered.{broadcast_tick-refines, taken, refused, taken-refused}

-- The broadcasts that wait or run.
unfoldable pub open_count : List Broadcast → ℕ
unfolding select
open_count rows = length (select (λ b. broadcast_open b.status) rows)

-- Runs of the job, one after the other, at these times.
unfoldable pub ticks : Telegram → List ℕ → World → World
ticks telegram [] w = w
ticks telegram (now ∷ later) w = ticks telegram later (broadcast_tick telegram now w)

open_with_id : ℕ → List Broadcast → Bool
open_with_id id rows = exists_row (λ b. b.id == id && broadcast_open b.status) rows

open_later :
    (b : Broadcast) (rows : List Broadcast) (id : ℕ)
    → open_with_id id rows ≡ true
    → open_with_id id (b ∷ rows) ≡ true
unfolding open_with_id exists_row
open_later b rows id h = ground (arith, h)

open_here :
    (b : Broadcast) (rows : List Broadcast)
    → broadcast_open b.status ≡ true
    → open_with_id b.id (b ∷ rows) ≡ true
unfolding open_with_id exists_row
open_here b rows h = ground (arith, h)

open_self :
    (rows : List Broadcast)
    → All (λ b. open_with_id b.id rows ≡ true) (select (λ b. broadcast_open b.status) rows)
unfolding select
open_self [] = tt
open_self (b ∷ rows) =
    let rest =
      All-mono (select (λ x. broadcast_open x.status) rows)
        (λ x found. open_later b rows x.id found) (open_self rows) in
    elim (Bool-cases (broadcast_open b.status)) [
      | inl waits ↦ rw waits (open_here b rows waits, rest)
      | inr ended ↦ rw ended rest
    ]

done-le :
    (id now s f : ℕ) (rows : List Broadcast)
    → open_count (update_rows (λ b. b.id == id) (set_done now s f) rows) ≤ open_count rows
unfolding open_count update_rows
done-le id now s f [] = omega arith
done-le id now s f (b ∷ rows) = ground (arith, done-le id now s f rows)

-- To finish a broadcast that is open leaves one open broadcast less at least.
done-lt :
    (id now s f : ℕ) (rows : List Broadcast)
    → open_with_id id rows ≡ true
    → open_count (update_rows (λ b. b.id == id) (set_done now s f) rows) < open_count rows
unfolding open_count update_rows open_with_id exists_row
done-lt id now s f [] h = cc
done-lt id now s f (b ∷ rows) h = ground (arith, done-lt id now s f rows, done-le id now s f rows)

head-All :
    (P : Broadcast → Type 0) (a : Broadcast) (xs : List Broadcast)
    → All P xs
    → first_row (λ b. true) xs ≡ some a
    → P a
unfolding first_row
head-All P a [] all h = cc
head-All P a (x ∷ xs) all h = let e : x ≡ a = cc in subst P e all.0

head-none : (xs : List Broadcast) → first_row (λ b. true) xs ≡ none → xs ≡ []
unfolding first_row
head-none [] h = refl
head-none (x ∷ xs) h = cc

next-open :
    (db : Db) (bc : Broadcast)
    → next_broadcast db ≡ some bc
    → open_with_id bc.id db.broadcasts ≡ true
unfolding next_broadcast
next-open db bc h =
    head-All _ bc _
      (All-order_by (λ b. open_with_id b.id db.broadcasts ≡ true) _ _ (open_self db.broadcasts)) h

next-none : (db : Db) → next_broadcast db ≡ none → open_count db.broadcasts ≡ 0
unfolding next_broadcast open_count
next-none db h =
    let empty = ap (λ xs. length xs) (head-none _ h) in
    let same =
      order_by-length (λ (a : Broadcast) b. ltb a.created_at b.created_at)
        (select (λ b. broadcast_open b.status) db.broadcasts) in
    sym same ∙ empty

-- What a broadcast that was run shows: it is done, the messages that were taken and those that were
-- not make up its total, and that is the number of the preview.
pub record AddsUp (preview : ℕ) (b : Broadcast) : Type 0 where
  pub finished : b.status ≡ BroadcastStatus.done
  pub all_tried : b.sent + b.failed ≡ b.total
  pub promised : b.total ≡ preview

-- Each broadcast ends: after as many runs of the job as there are broadcasts waiting or running, none
-- is, whatever Telegram answers.
pub ticks-drain :
    (telegram : Telegram) (times : List ℕ) (w : World)
    → open_count w.db.broadcasts ≤ length times
    → open_count (ticks telegram times w).db.broadcasts ≡ 0
unfolding ticks broadcast_tick
ticks-drain telegram [] w h = omega (arith, h)
ticks-drain telegram (now ∷ times) w h =
    ticks-drain telegram times (broadcast_tick telegram now w)
      (elim (Option-cases (next_broadcast w.db)) [
        | inl idle ↦
            let e : broadcast_tick telegram now w ≡ w = rw (idle, broadcast_tick) refl in
            rw e (omega (arith, next-none w.db idle))
        | inr (bc, due) ↦
            rw (broadcast_tick-refines telegram now bc w due)
              (omega (arith, h, done-lt bc.id now _ _ w.db.broadcasts (next-open w.db bc due)))
      ])

empty_of : (xs : List Broadcast) → length xs ≡ 0 → xs ≡ []
empty_of [] h = refl
empty_of (x ∷ xs) h = absurd (omega (arith, h))

length-map : {A B : Type 0} (f : A → B) (xs : List A) → length (map f xs) ≡ length xs
length-map f [] = refl
length-map f (x ∷ xs) = ap suc (length-map f xs)

-- The only open broadcast is the next one.
only_open :
    (b : Broadcast) (db : Db)
    → broadcast_open b.status ≡ true
    → open_count db.broadcasts ≡ 0
    → next_broadcast (record db { broadcasts = b ∷ db.broadcasts }) ≡ some b
unfolding next_broadcast open_count select order_by first_row insert_row
only_open b db waits h =
    let e = empty_of (select (λ x. broadcast_open x.status) db.broadcasts) h in rw waits (rw e refl)

module _ (telegram : Telegram) (id now later admin : ℕ) (text : Text) (a : Audience) (w : World)
    (idle : open_count w.db.broadcasts ≡ 0) where
  abbrev fresh : Broadcast
  fresh = new_broadcast id now admin text a w.db

  abbrev queued : Db
  queued = record w.db { broadcasts = fresh ∷ w.db.broadcasts }

  abbrev shown : Broadcast
  shown =
      let us = recipients queued fresh in
      set_done later (taken telegram text us) (refused telegram text us) fresh

  shown-AddsUp : AddsUp (broadcast_preview a w.db) shown
  unfolding new_broadcast recipients broadcast_preview
  shown-AddsUp =
      let us = recipients queued fresh in
      record {
        finished = refl;
        all_tried = taken-refused telegram text us ∙ length-map (λ u. u.telegram_id) _;
        promised = refl;
      }

  shown-found :
      get_broadcast id (broadcast_tick telegram later (record w { db = queued })).db ≡ ok shown
  unfolding get_broadcast update_rows first_row new_broadcast
  shown-found =
      let due = only_open fresh w.db refl idle in
      rw (broadcast_tick-refines telegram later fresh (record w { db = queued }) due)
        (rw (==-refl id) (rw (==-refl id, get_broadcast) refl))

-- A broadcast that is created while no other waits, and run before the users change, ends with as
-- many messages tried as the preview of its audience promised.
pub create_broadcast-AddsUp :
    (telegram : Telegram) (id now later admin : ℕ) (text : Text) (a : Audience) (w : World)
    {bc : Broadcast} {db : Db}
    → open_count w.db.broadcasts ≡ 0
    → create_broadcast id now admin text a w.db ≡ ok (bc, db)
    → (b : Broadcast) × (get_broadcast id (broadcast_tick telegram later (record w { db = db })).db
        ≡ ok b)
      × AddsUp (broadcast_preview a w.db) b
unfolding create_broadcast
create_broadcast-AddsUp telegram id now later admin text a w {bc} {db} idle h =
    let e : queued telegram id now later admin text a w idle ≡ db = ground (arith, h) in
    (
      shown telegram id now later admin text a w idle,
      subst
          (λ d.
            get_broadcast id (broadcast_tick telegram later (record w { db = d })).db
            ≡ ok (shown telegram id now later admin text a w idle))
          e (shown-found telegram id now later admin text a w idle),
      shown-AddsUp telegram id now later admin text a w idle,
    )
