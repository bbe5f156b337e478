-- ===== src/Poll/Invariant.antt =====
-- What a whole poll cycle keeps: the books, and the UNIQUE constraints of the ledger, the usage
-- tables, the withdrawal requests and the listings.
use abr_out.Prelude.{
  ℕ, List, [], ◌∷◌, some, Bool, true, false, ◌≡◌, refl, sym, inl, inr, Bool-cases, Option-cases,
  if◌then◌else◌, ◌&&◌,
}
use mathlib.Core.Path.{subst}
use abr_out.Prelude.Rows.{update_rows, unique_on, contains, exists_row}
use abr_out.Models.{Db, Listing, Config}
use abr_out.Outside.{World, Reply, InboundSnapshot, Effect, emit}
use abr_out.Wallet.{
  commit, commit-some, satisfies_constraints, unique_listings, same_port, same_inbound,
}
use abr_out.Quota.{enforce_quotas_once}
use abr_out.Quota.Enforced.{enforce_quotas_tables, with_configs}
use abr_out.Billing.{bill_inbound}
use abr_out.Billing.Books.{IsBalanced, bill_inbound-IsBalanced}
use abr_out.Poll.{
  Stats, Run, bill_at_leisure, reset_and_bill, process_listing, process_listings, finish_cycle,
  run_cycle, poll_traffic_once, listing_with_id, has_clients, refresh_listing_sales_totals,
  cycle_of, when_logged_in, zero_anchors, sold_gb,
}

-- The books are balanced, and no two rows have one idempotency key, usage cycle, port or inbound.
pub record IsSound (db : Db) : Type 0 where
  pub books : IsBalanced db
  pub unique : satisfies_constraints db ≡ true

module _ (p : Listing → Bool) (f : Listing → Listing) where
  exists_row-update_rows :
      (q : Listing → Bool)
      → ((l : Listing) → q (f l) ≡ q l)
      → (ls : List Listing) → exists_row q (update_rows p f ls) ≡ exists_row q ls
  unfolding exists_row update_rows
  exists_row-update_rows q same [] = refl
  exists_row-update_rows q same (l ∷ ls) = elim (Bool-cases (p l)) [
    | inl hit ↦ rw (hit, same l, exists_row-update_rows q same ls)
    | inr miss ↦ rw (miss, exists_row-update_rows q same ls)
  ]

-- An update keeps what is unique in a column that it leaves alone.
unique_on-update_rows :
    (clash : Listing → Listing → Bool) (p : Listing → Bool) (f : Listing → Listing)
    → ((l : Listing) → clash (f l) ≡ clash l)
    → ((k l : Listing) → clash k (f l) ≡ clash k l)
    → (ls : List Listing) → unique_on clash (update_rows p f ls) ≡ unique_on clash ls
unfolding unique_on update_rows
unique_on-update_rows clash p f left right [] = refl
unique_on-update_rows clash p f left right (l ∷ ls) = elim (Bool-cases (p l)) [
  | inl hit ↦ rw (
    hit,
    left l,
    exists_row-update_rows p f (clash l) (right l) ls,
    unique_on-update_rows clash p f left right ls,
  )
  | inr miss ↦ rw (
    miss,
    exists_row-update_rows p f (clash l) (right l) ls,
    unique_on-update_rows clash p f left right ls,
  )
]

listings-IsSound :
    (db : Db) (p : Listing → Bool) (f : Listing → Listing)
    → ((l : Listing) → same_port (f l) ≡ same_port l)
    → ((l : Listing) → same_inbound (f l) ≡ same_inbound l)
    → ((k l : Listing) → same_port k (f l) ≡ same_port k l)
    → ((k l : Listing) → same_inbound k (f l) ≡ same_inbound k l)
    → IsSound db
    → IsSound (record db { listings = update_rows p f db.listings })
unfolding satisfies_constraints unique_listings
listings-IsSound db p f port inbound port' inbound' s = record {
  books = record { credits = s.books.credits; debits = s.books.debits };
  unique =
      rw
        (
          unique_on-update_rows same_port p f port port' db.listings,
          unique_on-update_rows same_inbound p f inbound inbound' db.listings,
        )
        s.unique;
}

refresh-IsSound :
    (ids : List ℕ) (db : Db) → IsSound db → IsSound (refresh_listing_sales_totals ids db)
unfolding refresh_listing_sales_totals
refresh-IsSound ids db s =
    listings-IsSound db (λ l. contains l.id ids) (λ l. record l { total_gb_sold = sold_gb db l.id })
      (λ l. refl) (λ l. refl) (λ k l. refl) (λ k l. refl) s

pub configs-IsSound : (db : Db) (cs : List Config) → IsSound db → IsSound (with_configs db cs)
unfolding satisfies_constraints
configs-IsSound db cs s = record {
  books = record { credits = s.books.credits; debits = s.books.debits };
  unique = s.unique;
}

if-IsSound : (b : Bool) (d e : Db) → IsSound d → IsSound e → IsSound (if b then d else e)
if-IsSound true d e s t = s
if-IsSound false d e s t = t

commit-IsSound : (db : Db) {db' : Db} → commit db ≡ some db' → IsBalanced db → IsSound db'
commit-IsSound db h b =
    let c = commit-some db h in subst IsSound (sym c.0) (record { books = b; unique = c.1 })

pub enforce_quotas-IsSound : (w : World) → IsSound w.db → IsSound (enforce_quotas_once w).db
enforce_quotas-IsSound w s =
    let t = enforce_quotas_tables w in subst IsSound (sym t.1) (configs-IsSound w.db t.0 s)

module _ (run : Run) where
  bill_at_leisure-IsSound :
      (lid : ℕ) (snap : InboundSnapshot) (stats : Stats) (w : World)
      → IsSound w.db
      → IsSound (bill_at_leisure run lid snap stats w).0.db
  bill_at_leisure-IsSound lid snap stats w s = elim (Bool-cases (run.db_raises lid)) [
    | inl raised ↦ unfold bill_at_leisure in rw raised s
    | inr fine ↦ elim (Option-cases (listing_with_id lid w.db)) [
      | inl gone ↦ unfold bill_at_leisure in rw (fine, gone) s
      | inr (l, found) ↦
          let cycle = cycle_of run stats.reset_attempted stats.reset_succeeded in
          let billed = (bill_inbound run.share cycle l snap w.db).0 in
          elim (Option-cases (commit billed)) [
            | inl refused ↦ unfold bill_at_leisure in rw (fine, found, refused) s
            | inr (db', done) ↦
                unfold bill_at_leisure in
                rw (fine, found, done)
                  (commit-IsSound billed done
                    (bill_inbound-IsBalanced run.share cycle l snap w.db s.books))
          ]
    ]
  ]

  module _ (others : (lid : ℕ) (db : Db) → IsSound db → IsSound (run.meanwhile lid db)) where
    reset_and_bill-IsSound :
        (lid inbound : ℕ) (snap : InboundSnapshot) (w : World)
        → IsSound w.db
        → IsSound (reset_and_bill run lid inbound snap w).0.db
    unfolding reset_and_bill
    reset_and_bill-IsSound lid inbound snap w s = bill_at_leisure-IsSound lid snap _ _ (
        others lid _
          (elim (Bool-cases (run.settings.traffic_reset_enabled && has_clients snap.clients)) [
            | inl asked ↦ rw asked s
            | inr silent ↦ rw silent s
          ]))

    process_listing-IsSound :
        (lid : ℕ) (w : World) → IsSound w.db → IsSound (process_listing run lid w).0.db
    unfolding process_listing
    process_listing-IsSound lid w s = elim (Option-cases (listing_with_id lid w.db)) [
      | inl gone ↦ rw (gone, process_listing) s
      | inr (l, found) ↦ elim (Option-cases l.panel_inbound_id) [
        | inl bare ↦ rw (found, process_listing) (rw bare s)
        | inr (inbound, has) ↦ elim (Option-cases (run.panel.get_inbound_snapshot inbound)) [
          | inl failed ↦ rw (found, process_listing) (rw has (rw failed s))
          | inr (snap, read) ↦
              rw (found, process_listing)
                (rw has (rw read (reset_and_bill-IsSound lid inbound snap w s)))
        ]
      ]
    ]

    process_listings-IsSound :
        (lids : List ℕ) (w : World) → IsSound w.db → IsSound (process_listings run lids w).0.db
    unfolding process_listings
    process_listings-IsSound [] w s = s
    process_listings-IsSound (lid ∷ lids) w s =
        process_listings-IsSound lids (process_listing run lid w).0
          (process_listing-IsSound lid w s)

    finish_cycle-IsSound :
        (ids : List ℕ) (w : World) → IsSound w.db → IsSound (finish_cycle run ids w).db
    unfolding finish_cycle
    finish_cycle-IsSound [] w s = s
    finish_cycle-IsSound (i ∷ is) w s = refresh-IsSound (i ∷ is) _ (
        if-IsSound (run.settings.traffic_reset_enabled && run.panel.reset_all_inbounds_stat) _ _
          (listings-IsSound _ (λ l. contains l.id (i ∷ is)) zero_anchors (λ l. refl) (λ l. refl)
            (λ k l. refl) (λ k l. refl) (emitted w s))
          (emitted w s))
      where
        emitted :
            (v : World)
            → IsSound v.db
            → IsSound
                ((if run.settings.traffic_reset_enabled then emit Effect.reset_all v else v).db)
        emitted v h = elim (Bool-cases run.settings.traffic_reset_enabled) [
          | inl on ↦ rw on h
          | inr off ↦ rw off h
        ]

    logged_in-IsSound :
        (r : Reply) (w' w : World)
        → IsSound w'.db
        → IsSound w.db
        → IsSound (when_logged_in run r w' w).db
    logged_in-IsSound Reply.done w' w s' s = s'
    logged_in-IsSound Reply.refused w' w s' s = s
    logged_in-IsSound Reply.unreachable w' w s' s = s

    run_cycle-IsSound : (ids : List ℕ) (w : World) → IsSound w.db → IsSound (run_cycle run ids w).db
    unfolding run_cycle
    run_cycle-IsSound [] w s = s
    run_cycle-IsSound (i ∷ is) w s =
        let p = process_listings run (i ∷ is) w in
        logged_in-IsSound run.panel.login _ w
          (enforce_quotas-IsSound (finish_cycle run p.1 p.0)
            (finish_cycle-IsSound p.1 p.0 (process_listings-IsSound (i ∷ is) w s)))
          s

    -- A whole poll cycle, whatever the panel answers, its login included, and whichever listings
    -- fail, keeps the books balanced (the usage credits and debits of the ledger are those of the
    -- usage tables), and keeps from being held twice: an idempotency key of the ledger or of a
    -- withdrawal, a cycle of a listing or of a config, a port, and an inbound. What other processes
    -- commit in the meantime is assumed to keep the same.
    pub poll_traffic_once-IsSound :
        (w : World) → IsSound w.db → IsSound (poll_traffic_once run w).db
    unfolding poll_traffic_once
    poll_traffic_once-IsSound w s = run_cycle-IsSound _ w s
