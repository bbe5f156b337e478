-- ===== src/Health/Passes.antt =====
-- What the passes and notices of the quality gate write.
use abr_out.Prelude.{
  ℕ, List, [], ◌∷◌, Bool, false, ◌≡◌, ◌==◌, ltb, refl, ap, ◌∙◌, inl, inr, if◌then◌else◌, Bool-cases,
}
use abr_out.Prelude.Rows.{update_rows}
use abr_out.Prelude.Keyed.{update_rows-same}
use abr_out.Prelude.Loops.{change_each}
use abr_out.Models.{Db, Listing, PingSample}
use abr_out.Outside.{World, Message, Effect, emit}
use abr_out.Notifications.{notify_listing_buyers, send_to_users, distinct_buyer_ids}
use abr_out.Health.{
  had_ok, is_due, is_silent, has_recovered, promote, fail_test, demote, recover, count_notice,
  broken_notify_cap, write_listing, test_row, pending_pass, demote_pass, recover_pass, demote_row,
  recover_row, notify_outage, notify_failed, notify_demoted, notify_recovered, announce_promoted,
}

-- What each pass makes of a listing, by the row `r` that the pass has read.
abbrev pub tested : ℕ → List PingSample → Listing → Listing → Listing
tested now samples r =
    if had_ok samples r
    then promote
    else if is_due now r.pending_until_at
    then fail_test now
    else λ l. l

abbrev pub demoted : ℕ → ℕ → Listing → Listing → Listing
demoted now cutoff r = if is_silent cutoff r then demote now else λ l. l

abbrev pub recovered : ℕ → List PingSample → Listing → Listing → Listing
recovered now samples r = if has_recovered samples r then recover now else λ l. l

abbrev pub noticed : Listing → Listing → Listing
noticed r = if ltb r.broken_notify_count broken_notify_cap then count_notice else λ l. l

abbrev pub with_listings : Db → List Listing → Db
with_listings db ls = record db { listings = ls }

abbrev pub id_of : Listing → ℕ
id_of l = l.id

pub test_row-db :
    (now : ℕ) (r : Listing) (db : Db)
    → test_row now r db
      ≡ with_listings db
          (update_rows (λ x. x.id == r.id) (tested now db.ping_samples r) db.listings)
unfolding test_row
test_row-db now r db = elim (Bool-cases (had_ok db.ping_samples r)) [
  | inl ok ↦ rw ok refl
  | inr bad ↦ elim (Bool-cases (is_due now r.pending_until_at)) [
    | inl due ↦ rw (bad, due) refl
    | inr early ↦ rw (bad, early, update_rows-same (λ x. x.id == r.id) db.listings) refl
  ]
]

pub demote_row-db :
    (now cutoff : ℕ) (r : Listing) (db : Db)
    → demote_row now cutoff r db
      ≡ with_listings db (update_rows (λ x. x.id == r.id) (demoted now cutoff r) db.listings)
unfolding demote_row
demote_row-db now cutoff r db = elim (Bool-cases (is_silent cutoff r)) [
  | inl hit ↦ rw hit refl
  | inr miss ↦ rw (miss, update_rows-same (λ x. x.id == r.id) db.listings) refl
]

pub recover_row-db :
    (now : ℕ) (r : Listing) (db : Db)
    → recover_row now r db
      ≡ with_listings db
          (update_rows (λ x. x.id == r.id) (recovered now db.ping_samples r) db.listings)
unfolding recover_row
recover_row-db now r db = elim (Bool-cases (has_recovered db.ping_samples r)) [
  | inl hit ↦ rw hit refl
  | inr miss ↦ rw (miss, update_rows-same (λ x. x.id == r.id) db.listings) refl
]

pub pending_pass-db :
    (now : ℕ) (rs : List Listing) (db : Db)
    → pending_pass now rs db
      ≡ with_listings db (change_each id_of (tested now db.ping_samples) rs db.listings)
unfolding pending_pass change_each
pending_pass-db now [] db = refl
pending_pass-db now (r ∷ rs) db =
    pending_pass-db now rs (test_row now r db)
    ∙ ap (λ d. with_listings d (change_each id_of (tested now d.ping_samples) rs d.listings))
        (test_row-db now r db)

pub demote_pass-db :
    (now cutoff : ℕ) (rs : List Listing) (db : Db)
    → demote_pass now cutoff rs db
      ≡ with_listings db (change_each id_of (demoted now cutoff) rs db.listings)
unfolding demote_pass change_each
demote_pass-db now cutoff [] db = refl
demote_pass-db now cutoff (r ∷ rs) db =
    demote_pass-db now cutoff rs (demote_row now cutoff r db)
    ∙ ap (λ d. with_listings d (change_each id_of (demoted now cutoff) rs d.listings))
        (demote_row-db now cutoff r db)

pub recover_pass-db :
    (now : ℕ) (rs : List Listing) (db : Db)
    → recover_pass now rs db
      ≡ with_listings db (change_each id_of (recovered now db.ping_samples) rs db.listings)
unfolding recover_pass change_each
recover_pass-db now [] db = refl
recover_pass-db now (r ∷ rs) db =
    recover_pass-db now rs (recover_row now r db)
    ∙ ap (λ d. with_listings d (change_each id_of (recovered now d.ping_samples) rs d.listings))
        (recover_row-db now r db)

pub send_to_users-db :
    (us : List ℕ) (text : Message) (w : World) → (send_to_users us text w).db ≡ w.db
unfolding send_to_users
send_to_users-db [] text w = refl
send_to_users-db (u ∷ us) text w = send_to_users-db us text (emit (Effect.message u text) w)

pub notify_listing_buyers-db :
    (id : ℕ) (text : Message) (price active : Bool) (w : World)
    → (notify_listing_buyers id text price active w).db ≡ w.db
unfolding notify_listing_buyers
notify_listing_buyers-db id text price active w =
    send_to_users-db (distinct_buyer_ids w.db id price active) text w

pub notify_outage-db :
    (text : Message) (r : Listing) (w : World)
    → (notify_outage text r w).db
      ≡ with_listings w.db (update_rows (λ x. x.id == r.id) (noticed r) w.db.listings)
unfolding notify_outage
notify_outage-db text r w = elim (Bool-cases (ltb r.broken_notify_count broken_notify_cap)) [
  | inl few ↦ rw few (
      ap (write_listing count_notice r.id) (
        notify_listing_buyers-db r.id (Message.buyers_listing_broken r.id) false false
          (emit (Effect.message r.seller_user_id text) w)))
  | inr many ↦ rw (many, update_rows-same (λ x. x.id == r.id) w.db.listings) refl
]

pub notify_failed-db :
    (rs : List Listing) (w : World)
    → (notify_failed rs w).db ≡ with_listings w.db (change_each id_of noticed rs w.db.listings)
unfolding notify_failed change_each
notify_failed-db [] w = refl
notify_failed-db (r ∷ rs) w =
    notify_failed-db rs (notify_outage (Message.listing_test_failed r.id r.title) r w)
    ∙ ap (λ d. with_listings d (change_each id_of noticed rs d.listings)) (notify_outage-db _ r w)

pub notify_demoted-db :
    (rs : List Listing) (w : World)
    → (notify_demoted rs w).db ≡ with_listings w.db (change_each id_of noticed rs w.db.listings)
unfolding notify_demoted change_each
notify_demoted-db [] w = refl
notify_demoted-db (r ∷ rs) w =
    notify_demoted-db rs (notify_outage (Message.listing_broken r.id) r w)
    ∙ ap (λ d. with_listings d (change_each id_of noticed rs d.listings)) (notify_outage-db _ r w)

pub notify_recovered-db : (rs : List Listing) (w : World) → (notify_recovered rs w).db ≡ w.db
unfolding notify_recovered
notify_recovered-db [] w = refl
notify_recovered-db (r ∷ rs) w =
    let text = Message.buyers_listing_recovered r.id in
    notify_recovered-db rs (notify_listing_buyers r.id text false false w)
    ∙ notify_listing_buyers-db r.id text false false w

pub announce_promoted-db : (rs : List Listing) (w : World) → (announce_promoted rs w).db ≡ w.db
unfolding announce_promoted
announce_promoted-db [] w = refl
announce_promoted-db (r ∷ rs) w =
    announce_promoted-db rs (emit (Effect.announce r.id r.price_per_gb_usd) w)
