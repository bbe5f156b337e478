-- ===== src/Listings/Cleanup.antt =====
-- A listing that is not saved leaves no inbound behind on the panel.
use abr_out.Prelude.{ℕ, [], ◌∷◌, Option, none, some, Bool, ◌≡◌, refl, sym, ap, ◌∙◌, arith}
use mathlib.Core.Path.{subst}
use abr_out.Models.{Db}
use abr_out.Outside.{World, Panel, Reply, Effect, ask}
use abr_out.Http.{HttpError, ok, fail}
use abr_out.Listings.{
  ListingCreateIn, check_listing, create_listing, after_inbound, after_client, save_listing,
  add_probe_client,
}

-- The request that was sent last.
abbrev pub last_request : World → Option Effect
last_request w = elim w.effects [ [] ↦ none | e ∷ es ↦ some e ]

module _ (panel : Panel) (now pending_until id uuid : ℕ) (logs_in : panel.login ≡ Reply.done)
    (meanwhile : Db → Db) where
  save_listing-cleans :
      (user : ℕ) (body : ListingCreateIn) (inbound : ℕ) (w : World) (e : HttpError)
      → (save_listing panel now pending_until id uuid user body inbound w).0 ≡ fail e
      → last_request (save_listing panel now pending_until id uuid user body inbound w).1
        ≡ some (Effect.remove_inbound inbound)
  unfolding save_listing
  save_listing-cleans user body inbound w e h = ground (arith, logs_in)

  after_client-cleans :
      (user : ℕ) (body : ListingCreateIn) (inbound : ℕ) (r : Reply) (w : World) (e : HttpError)
      → (after_client panel now pending_until id uuid meanwhile user body inbound (r, w)).0 ≡ fail e
      → last_request
          (after_client panel now pending_until id uuid meanwhile user body inbound (r, w)).1
        ≡ some (Effect.remove_inbound inbound)
  after_client-cleans user body inbound Reply.done w e h =
      save_listing-cleans user body inbound (record w { db = meanwhile w.db }) e h
  after_client-cleans user body inbound Reply.refused w e h = refl
  after_client-cleans user body inbound Reply.unreachable w e h = refl

  ask-done : (e : Effect) (reply : Reply) (w : World) → (ask panel e reply w).0 ≡ reply
  ask-done e reply w = ground (arith, logs_in)

  after_inbound-cleans :
      (user : ℕ) (body : ListingCreateIn) (inbound : ℕ) (m : Reply × Option ℕ) (w : World)
      (e : HttpError)
      → m ≡ (Reply.done, some inbound)
      → (after_inbound panel now pending_until id uuid meanwhile user body m w).0 ≡ fail e
      → last_request (after_inbound panel now pending_until id uuid meanwhile user body m w).1
        ≡ some (Effect.remove_inbound inbound)
  after_inbound-cleans user body inbound m w e same =
      let (r, w') = add_probe_client panel now pending_until id uuid body inbound w in
      subst
        (λ m.
          (after_inbound panel now pending_until id uuid meanwhile user body m w).0 ≡ fail e
          → last_request (after_inbound panel now pending_until id uuid meanwhile user body m w).1
            ≡ some (Effect.remove_inbound inbound))
        (sym same) (after_client-cleans user body inbound r w' e)

  -- Where the panel can be reached and has made the inbound of a listing that passed the checks, a
  -- request that fails after all, at the probe client, at the second look at the cap or at the
  -- commit, has asked the panel last to delete that inbound.
  pub create_listing-cleans :
      (is_flagged : ℕ → Bool) (user : ℕ) (body checked : ListingCreateIn) (inbound : ℕ) (w : World)
      (e : HttpError)
      → check_listing is_flagged user body w.db ≡ ok checked
      → panel.add_vless_tcp_inbound checked.port checked.title checked.iran_host
        ≡ (Reply.done, some inbound)
      → (create_listing panel now pending_until id uuid meanwhile is_flagged user body w).0 ≡ fail e
      → last_request
          (create_listing panel now pending_until id uuid meanwhile is_flagged user body w).1
        ≡ some (Effect.remove_inbound inbound)
  unfolding create_listing
  create_listing-cleans is_flagged user body checked inbound w e passed made =
      let effect = Effect.add_inbound checked.port checked.title checked.iran_host in
      let (reply, number) =
        panel.add_vless_tcp_inbound checked.port checked.title checked.iran_host in
      let (answer, w') = ask panel effect reply w in
      rw passed (
        after_inbound-cleans user checked inbound (answer, number) w' e
          (ap (λ (r : Reply). (r, number)) (ask-done effect reply w) ∙ made))
