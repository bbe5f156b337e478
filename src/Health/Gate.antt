-- ===== src/Health/Gate.antt =====
-- What a run of the quality gate leaves of each listing.
use abr_out.Prelude.{
  ℕ, List, Bool, ◌≡◌, ◌&&◌, refl, sym, ap, ◌∙◌, arith, map, map_same, if◌then◌else◌,
}
use abr_out.Prelude.Rows.{select}
use abr_out.Prelude.Keyed.{IsKey, select-select}
use abr_out.Prelude.Loops.{change_each, change_each-own}
use abr_out.Models.{Db, Listing, PingSample, listing_pending, listing_active, listing_broken}
use abr_out.Outside.{World}
use abr_out.Health.{
  had_ok, is_failed, is_silent, has_recovered, pending_pass, demote_pass, recover_pass,
  notify_failed, notify_demoted, announce_promoted, listing_quality_gate_once,
}
use abr_out.Health.Passes.{
  tested, demoted, recovered, noticed, with_listings, id_of, pending_pass-db, demote_pass-db,
  recover_pass-db, notify_failed-db, notify_demoted-db, notify_recovered-db, announce_promoted-db,
}

-- The outcome of each pass for one listing.
abbrev pub after_test : ℕ → List PingSample → Listing → Listing
after_test now samples l = if listing_pending l.status then tested now samples l l else l

abbrev pub after_demotion : ℕ → ℕ → Listing → Listing
after_demotion now cutoff l = if listing_active l.status then demoted now cutoff l l else l

abbrev pub after_recovery : ℕ → List PingSample → Listing → Listing
after_recovery now samples l = if listing_broken l.status then recovered now samples l l else l

abbrev pub after_passes : ℕ → ℕ → List PingSample → Listing → Listing
after_passes now cutoff samples l =
    after_recovery now samples (after_demotion now cutoff (after_test now samples l))

-- The outages that a run tells of.
abbrev pub failed_test : ℕ → List PingSample → Listing → Bool
failed_test now samples l = listing_pending l.status && is_failed now samples l

abbrev pub fell_silent : ℕ → Listing → Bool
fell_silent cutoff l = listing_active l.status && is_silent cutoff l

abbrev pub after_notice : Bool → Listing → Listing → Listing
after_notice outage r l = if outage then noticed r l else l

-- The outcome of a run for one listing.
abbrev pub health : ℕ → ℕ → List PingSample → Listing → Listing
health now cutoff samples l =
    let a = after_test now samples l in
    after_notice (fell_silent cutoff a) a
      (after_notice (failed_test now samples l) l (after_passes now cutoff samples l))

tested-id : (now : ℕ) (ss : List PingSample) (r l : Listing) → id_of (tested now ss r l) ≡ id_of l
tested-id now ss r l = ground arith

demoted-id : (now cutoff : ℕ) (r l : Listing) → id_of (demoted now cutoff r l) ≡ id_of l
demoted-id now cutoff r l = ground arith

recovered-id :
    (now : ℕ) (ss : List PingSample) (r l : Listing) → id_of (recovered now ss r l) ≡ id_of l
recovered-id now ss r l = ground arith

noticed-id : (r l : Listing) → id_of (noticed r l) ≡ id_of l
noticed-id r l = ground arith

after_test-id :
    (now : ℕ) (ss : List PingSample) (l : Listing) → id_of (after_test now ss l) ≡ id_of l
after_test-id now ss l = ground (arith, tested-id now ss l l)

after_demotion-id : (now cutoff : ℕ) (l : Listing) → id_of (after_demotion now cutoff l) ≡ id_of l
after_demotion-id now cutoff l = ground (arith, demoted-id now cutoff l l)

after_recovery-id :
    (now : ℕ) (ss : List PingSample) (l : Listing) → id_of (after_recovery now ss l) ≡ id_of l
after_recovery-id now ss l = ground (arith, recovered-id now ss l l)

after_notice-id : (b : Bool) (r l : Listing) → id_of (after_notice b r l) ≡ id_of l
after_notice-id b r l = ground (arith, noticed-id r l)

module _ (now cutoff : ℕ) (db : Db) (key : IsKey id_of db.listings) where
  abbrev xs : List Listing
  xs = db.listings

  abbrev ss : List PingSample
  ss = db.ping_samples

  abbrev passed : Listing → Listing
  passed l = after_demotion now cutoff (after_test now ss l)

  passed-id : (l : Listing) → id_of (passed l) ≡ id_of l
  passed-id l = after_demotion-id now cutoff (after_test now ss l) ∙ after_test-id now ss l

  passes-id : (l : Listing) → id_of (after_passes now cutoff ss l) ≡ id_of l
  passes-id l = after_recovery-id now ss (passed l) ∙ passed-id l

  pending_pass-all :
      pending_pass now (select (λ l. listing_pending l.status) xs) db
      ≡ with_listings db (map (after_test now ss) xs)
  pending_pass-all =
      pending_pass-db now (select (λ l. listing_pending l.status) xs) db
      ∙ ap (with_listings db) (
          ap
            (λ ys. change_each id_of (tested now ss) (select (λ l. listing_pending l.status) ys) ys)
            (sym (map_same xs))
          ∙ change_each-own id_of (tested now ss) (tested-id now ss) (λ l. listing_pending l.status)
              (λ l. l) (λ l. l) (λ l. refl) (λ l. refl) xs key)

  demote_pass-all :
      let db₁ = with_listings db (map (after_test now ss) xs) in
      demote_pass now cutoff (select (λ l. listing_active l.status) db₁.listings) db₁
      ≡ with_listings db (map passed xs)
  demote_pass-all =
      let db₁ = with_listings db (map (after_test now ss) xs) in
      demote_pass-db now cutoff (select (λ l. listing_active l.status) db₁.listings) db₁
      ∙ ap (with_listings db) (
          change_each-own id_of (demoted now cutoff) (demoted-id now cutoff)
            (λ l. listing_active l.status) (after_test now ss) (after_test now ss)
            (after_test-id now ss) (after_test-id now ss) xs key)

  recover_pass-all :
      let db₂ = with_listings db (map passed xs) in
      recover_pass now (select (λ l. listing_broken l.status) db₂.listings) db₂
      ≡ with_listings db (map (after_passes now cutoff ss) xs)
  recover_pass-all =
      let db₂ = with_listings db (map passed xs) in
      recover_pass-db now (select (λ l. listing_broken l.status) db₂.listings) db₂
      ∙ ap (with_listings db) (
          change_each-own id_of (recovered now ss) (recovered-id now ss)
            (λ l. listing_broken l.status) passed passed passed-id passed-id xs key)

  -- What the notices write, after the passes wrote `d`.
  abbrev noted : List Listing → Db → Db
  noted actives d = with_listings d (
      change_each id_of noticed (select (is_silent cutoff) actives) (
        change_each id_of noticed
          (select (is_failed now ss) (select (λ l. listing_pending l.status) xs)) d.listings))

  noted-all :
      noted
        (select (λ l. listing_active l.status) (map (after_test now ss) xs))
        (with_listings db (map (after_passes now cutoff ss) xs))
      ≡ with_listings db (map (health now cutoff ss) xs)
  noted-all =
      let failed = failed_test now ss in
      let silent = fell_silent cutoff in
      let outage = select (is_failed now ss) (select (λ l. listing_pending l.status) xs) in
      ap (with_listings db) (
        ap
          (λ rs.
            change_each id_of noticed rs
              (change_each id_of noticed outage (map (after_passes now cutoff ss) xs)))
          (select-select (is_silent cutoff) (λ l. listing_active l.status)
            (map (after_test now ss) xs))
        ∙ ap (change_each id_of noticed (select silent (map (after_test now ss) xs))) (
            ap (λ rs. change_each id_of noticed rs (map (after_passes now cutoff ss) xs))
              (select-select (is_failed now ss) (λ l. listing_pending l.status) xs
                ∙ ap (select failed) (sym (map_same xs)))
            ∙ change_each-own id_of noticed noticed-id failed (λ l. l) (after_passes now cutoff ss)
                (λ l. refl) passes-id xs key)
        ∙ change_each-own id_of noticed noticed-id silent (after_test now ss)
            (λ l. after_notice (failed l) l (after_passes now cutoff ss l)) (after_test-id now ss)
            (λ l. after_notice-id (failed l) l (after_passes now cutoff ss l) ∙ passes-id l) xs key)

  -- What the passes and the notices write, after the first pass wrote `d`.
  abbrev remaining : Db → Db
  remaining d =
      let active_rows = select (λ l. listing_active l.status) d.listings in
      let db₂ = demote_pass now cutoff active_rows d in
      noted active_rows (recover_pass now (select (λ l. listing_broken l.status) db₂.listings) db₂)

  remaining-all :
      remaining (with_listings db (map (after_test now ss) xs))
      ≡ with_listings db (map (health now cutoff ss) xs)
  remaining-all =
      let actives = select (λ l. listing_active l.status) (map (after_test now ss) xs) in
      ap
        (λ d. noted actives (recover_pass now (select (λ l. listing_broken l.status) d.listings) d))
        demote_pass-all
      ∙ ap (noted actives) recover_pass-all
      ∙ noted-all

-- Where the ids of the listings are a key, a run of the quality gate applies one function to each
-- listing and changes no other table: a pending listing is promoted if it has an ok sample since it
-- was created and breaks if its deadline passed without one; then an active one breaks if it was
-- probed since the cutoff without an ok answer since; then a broken one recovers if its latest
-- sample since it broke is ok; and each outage counts one notice as long as fewer than three were
-- counted when its pass read the row.
pub listing_quality_gate-refines :
    (now cutoff : ℕ) (w : World)
    → IsKey (λ l. l.id) w.db.listings
    → (listing_quality_gate_once now cutoff w).db
      ≡ with_listings w.db (map (health now cutoff w.db.ping_samples) w.db.listings)
unfolding listing_quality_gate_once
listing_quality_gate-refines now cutoff w key =
    let db = w.db in
    let samples = db.ping_samples in
    let pending_rows = select (λ l. listing_pending l.status) db.listings in
    let db₁ = pending_pass now pending_rows db in
    let active_rows = select (λ l. listing_active l.status) db₁.listings in
    let db₂ = demote_pass now cutoff active_rows db₁ in
    let broken_rows = select (λ l. listing_broken l.status) db₂.listings in
    let w₃ = record w { db = recover_pass now broken_rows db₂ } in
    let w₄ = announce_promoted (select (had_ok samples) pending_rows) w₃ in
    let failed = select (is_failed now samples) pending_rows in
    let silent = select (is_silent cutoff) active_rows in
    notify_recovered-db (select (has_recovered samples) broken_rows)
      (notify_demoted silent (notify_failed failed w₄))
    ∙ notify_demoted-db silent (notify_failed failed w₄)
    ∙ ap (λ d. with_listings d (change_each id_of noticed silent d.listings))
        (notify_failed-db failed w₄
          ∙ ap (λ d. with_listings d (change_each id_of noticed failed d.listings))
              (announce_promoted-db (select (had_ok samples) pending_rows) w₃))
    ∙ ap (remaining now cutoff db key) (pending_pass-all now cutoff db key)
    ∙ remaining-all now cutoff db key
