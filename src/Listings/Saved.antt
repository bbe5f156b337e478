-- ===== src/Listings/Saved.antt =====
-- What a listing that is created comes to in the tables.
use abr_out.Prelude.{ℕ, ◌≤◌, ◌∷◌, Option, none, some, Bool, true, ◌≡◌, arith, is_some}
use abr_out.Prelude.Rows.{unique_on, select}
use mathlib.Core.Path.{subst}
use abr_out.Models.{Db, Listing, ListingStatus}
use abr_out.Outside.{World, Panel, Reply, Effect, ask}
use abr_out.Wallet.{same_port, same_inbound, unique_listings}
use abr_out.Http.{Outcome, ok, fail}
use abr_out.Listings.{
  ListingCreateIn, check_listing, create_listing, provision_listing, after_inbound, after_client,
  save_listing, add_probe_client, new_listing, active_count, max_listings_per_seller,
}

-- The row is in the tables, pending, with an inbound; its seller has five listings at most that are
-- not deleted; and no two listings have one port or one inbound.
abbrev pub IsSaved : ℕ → Listing → Db → Db → Type 0
IsSaved user l before db =
    (db ≡ record before { listings = l ∷ before.listings })
    × (l.seller_user_id ≡ user)
    × (l.status ≡ ListingStatus.pending)
    × (is_some l.panel_inbound_id ≡ true)
    × (active_count user db ≤ max_listings_per_seller)
    × (unique_on same_port db.listings ≡ true)
    × (unique_on same_inbound db.listings ≡ true)

module _ (panel : Panel) (now pending_until id uuid : ℕ) (meanwhile : Db → Db) where
  save_listing-IsSaved :
      (user : ℕ) (body : ListingCreateIn) (inbound : ℕ) (w : World) (l : Listing)
      → (save_listing panel now pending_until id uuid user body inbound w).0 ≡ ok l
      → IsSaved user l w.db (save_listing panel now pending_until id uuid user body inbound w).1.db
  unfolding save_listing active_count select new_listing unique_listings
  save_listing-IsSaved user body inbound w l h = ground arith

  after_client-IsSaved :
      (user : ℕ) (body : ListingCreateIn) (inbound : ℕ) (r : Reply) (w : World) (l : Listing)
      → (after_client panel now pending_until id uuid meanwhile user body inbound (r, w)).0 ≡ ok l
      → IsSaved user l
          (meanwhile w.db)
          (after_client panel now pending_until id uuid meanwhile user body inbound (r, w)).1.db
  after_client-IsSaved user body inbound Reply.done w l h =
      save_listing-IsSaved user body inbound (record w { db = meanwhile w.db }) l h
  after_client-IsSaved user body inbound Reply.refused w l h = cc
  after_client-IsSaved user body inbound Reply.unreachable w l h = cc

  after_inbound-IsSaved :
      (user : ℕ) (body : ListingCreateIn) (r : Reply) (number : Option ℕ) (w : World) (l : Listing)
      → (after_inbound panel now pending_until id uuid meanwhile user body (r, number) w).0 ≡ ok l
      → IsSaved user l
          (meanwhile w.db)
          (after_inbound panel now pending_until id uuid meanwhile user body (r, number) w).1.db
  after_inbound-IsSaved user body Reply.done (some inbound) w l h =
      let (r, w') = add_probe_client panel now pending_until id uuid body inbound w in
      after_client-IsSaved user body inbound r w' l h
  after_inbound-IsSaved user body Reply.done none w l h = cc
  after_inbound-IsSaved user body Reply.refused number w l h = cc
  after_inbound-IsSaved user body Reply.unreachable number w l h = cc

  ask-db : (e : Effect) (reply : Reply) (w : World) → (ask panel e reply w).1.db ≡ w.db
  ask-db e reply w = ground arith

  provision_listing-IsSaved :
      (user : ℕ) (o : Outcome ListingCreateIn) (w : World) (l : Listing)
      → (provision_listing panel now pending_until id uuid meanwhile user o w).0 ≡ ok l
      → IsSaved user l
          (meanwhile w.db)
          (provision_listing panel now pending_until id uuid meanwhile user o w).1.db
  provision_listing-IsSaved user (fail e) w l h = cc
  provision_listing-IsSaved user (ok body) w l h =
      let effect = Effect.add_inbound body.port body.title body.iran_host in
      let (reply, number) = panel.add_vless_tcp_inbound body.port body.title body.iran_host in
      let (answer, w') = ask panel effect reply w in
      subst
        (λ d.
          IsSaved user l (meanwhile d)
            (after_inbound panel now pending_until id uuid meanwhile user body (answer, number)
              w').1.db)
        (ask-db effect reply w) (after_inbound-IsSaved user body answer number w' l h)

  -- A listing that is created, whatever others commit while the panel is asked, is one row more in
  -- their tables: pending, the user's, and with an inbound. The user has at most five listings then
  -- that are not deleted, and no two listings have one port or one inbound.
  pub create_listing-IsSaved :
      (is_flagged : ℕ → Bool) (user : ℕ) (body : ListingCreateIn) (w : World) (l : Listing)
      → (create_listing panel now pending_until id uuid meanwhile is_flagged user body w).0 ≡ ok l
      → IsSaved user l
          (meanwhile w.db)
          (create_listing panel now pending_until id uuid meanwhile is_flagged user body w).1.db
  unfolding create_listing
  create_listing-IsSaved is_flagged user body w l h =
      provision_listing-IsSaved user (check_listing is_flagged user body w.db) w l h
