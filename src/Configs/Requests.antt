-- ===== src/Configs/Requests.antt =====
-- The five requests that change configs, as the router dispatches them, and what each can do to the
-- tables.
use abr_out.Prelude.{
  ℕ, Option, none, some, Bool, true, false, ◌≡◌, ◌==◌, refl, arith, sym, inl, inr, not, Bool-cases,
}
use mathlib.Core.Path.{subst}
use abr_out.Prelude.Text.{Text}
use abr_out.Prelude.Rows.{update_rows}
use abr_out.Models.{
  Db, Config, ConfigStatus, Listing, config_disabled, config_active, listing_active,
}
use abr_out.Outside.{World, Panel, Reply, ask}
use abr_out.Http.{HttpError, Outcome, ok, fail, >>=-ok, ok-injective, raise_if}
use abr_out.Configs.{
  ConfigCreateIn, ConfigPatchIn, create_config, when_ok, store_config, check_create, provision,
  new_config, add_config, is_patch_body,
}
use abr_out.Configs.Edit.{
  disable_config, enable_config, patch_config, delete_config, disable_owned, enable_owned,
  delete_owned, unless_unreachable, load_owned_config, check_patch, checked_name, tell_enabled,
  tell_deleted, set_status, set_deleted, set_name, set_auto_disable,
}

pub data ConfigRequest : Type 0 where
  create : ConfigCreateIn → ConfigRequest
  disable enable delete : ℕ → ConfigRequest
  patch : ℕ → ConfigPatchIn → ConfigRequest

-- An assignment that keeps which config it is and whose.
pub record IsEdit (f : Config → Config) : Type 0 where
  pub keeps_id : (c : Config) → (f c).id ≡ c.id
  pub keeps_buyer : (c : Config) → (f c).buyer_user_id ≡ c.buyer_user_id
  pub keeps_listing : (c : Config) → (f c).listing_id ≡ c.listing_id

module _ (panel : Panel) (uuid_text uuid_hex : ℕ → Text) (now id uuid user : ℕ) where
  unfoldable pub handle : ConfigRequest → World → Outcome Config × World
  unfolding create_config disable_config enable_config delete_config patch_config
  handle (ConfigRequest.create body) w =
      create_config panel uuid_text uuid_hex now id uuid user body w
  handle (ConfigRequest.disable k) w = disable_config panel now k user w
  handle (ConfigRequest.enable k) w = enable_config panel now k user w
  handle (ConfigRequest.delete k) w = delete_config panel now k user w
  handle (ConfigRequest.patch k body) w = patch_config k user body w

  abbrev pub bought : ConfigCreateIn → Text × Listing × ℕ → Config
  bought body (name, listing, inbound) =
      new_config panel uuid_text uuid_hex now id uuid user body name listing

  -- What a request may do to the tables.
  pub data Change : Outcome Config → Db → Db → Type 0 where
    refuses : {db : Db} (e : HttpError) → Change (fail e) db db
    leaves : {db : Db} {c : Config} → Change (ok c) db db
    edits :
        {db : Db} {answer : Config} (k : ℕ) (c : Config) (l : Listing) (f : Config → Config)
        → load_owned_config k user db ≡ ok (c, l)
        → IsEdit f
        → Change
            (ok answer)
            db
            (record db { configs = update_rows (λ x. x.id == c.id) f db.configs })
    buys :
        {db : Db} (body : ConfigCreateIn) (checked : Text × Listing × ℕ)
        → check_create user body db ≡ ok checked
        → Change
            (ok (bought body checked))
            db
            (add_config panel uuid_text uuid_hex now id uuid (bought body checked) db)

  ask-db : (e : _) (reply : Reply) (w : World) → (ask panel e reply w).1.db ≡ w.db
  ask-db e reply w = ground arith

  unless_unreachable-Change :
      (k : ℕ) (c : Config) (l : Listing) (f : Config → Config) (db : Db) (r : Reply) (w : World)
      → load_owned_config k user db ≡ ok (c, l)
      → IsEdit f
      → w.db ≡ db
      → Change (unless_unreachable (r, w) f c).0 db (unless_unreachable (r, w) f c).1.db
  unless_unreachable-Change k c l f db Reply.done w h edit same =
      subst
        (λ d.
          Change (ok (f c)) db (record d { configs = update_rows (λ x. x.id == c.id) f d.configs }))
        (sym same) (Change.edits k c l f h edit)
  unless_unreachable-Change k c l f db Reply.refused w h edit same =
      subst
        (λ d.
          Change (ok (f c)) db (record d { configs = update_rows (λ x. x.id == c.id) f d.configs }))
        (sym same) (Change.edits k c l f h edit)
  unless_unreachable-Change k c l f db Reply.unreachable w h edit same =
      subst (λ d. Change (fail HttpError.server_error) db d) (sym same)
        (Change.refuses HttpError.server_error)

  when_ok-Change :
      {A : Type 0} (o : Outcome A) (w : World) (next : A → Outcome Config × World)
      → ((a : A) → o ≡ ok a → Change (next a).0 w.db (next a).1.db)
      → Change (when_ok o w next).0 w.db (when_ok o w next).1.db
  when_ok-Change (ok a) w next h = h a refl
  when_ok-Change (fail e) w next h = Change.refuses e

  store_config-Change :
      (body : ConfigCreateIn) (checked : Text × Listing × ℕ) (db : Db) (r : Reply) (w : World)
      → check_create user body db ≡ ok checked
      → w.db ≡ db
      → let (o, w') =
          store_config panel uuid_text uuid_hex now id uuid (bought body checked) (r, w) in
        Change o db w'.db
  store_config-Change body checked db Reply.done w h same =
      subst
        (λ d.
          Change (ok (bought body checked)) db
            (add_config panel uuid_text uuid_hex now id uuid (bought body checked) d))
        (sym same) (Change.buys body checked h)
  store_config-Change body checked db Reply.refused w h same =
      subst (Change (fail HttpError.panel_error) db) (sym same)
        (Change.refuses HttpError.panel_error)
  store_config-Change body checked db Reply.unreachable w h same =
      subst (Change (fail HttpError.server_error) db) (sym same)
        (Change.refuses HttpError.server_error)

  IsEdit-set_status : (s : ConfigStatus) → IsEdit (set_status panel now s)
  IsEdit-set_status s = record {
    keeps_id = λ c. refl;
    keeps_buyer = λ c. refl;
    keeps_listing = λ c. refl;
  }

  IsEdit-set_deleted : IsEdit (set_deleted panel now)
  IsEdit-set_deleted = record {
    keeps_id = λ c. refl;
    keeps_buyer = λ c. refl;
    keeps_listing = λ c. refl;
  }

  tell_enabled-db :
      (b : Bool) (c : Config) (o : Option ℕ) (w : World)
      → (tell_enabled panel now b c o w).1.db ≡ w.db
  tell_enabled-db b c none w = refl
  tell_enabled-db b c (some inbound) w = ask-db _ _ w

  tell_deleted-db :
      (c : Config) (o : Option ℕ) (w : World) → (tell_deleted panel now c o w).1.db ≡ w.db
  tell_deleted-db c none w = refl
  tell_deleted-db c (some inbound) w = ask-db _ _ w

  module _ (k : ℕ) (w : World) (owned : Config × Listing)
      (h : load_owned_config k user w.db ≡ ok owned) where
    disable_owned-Change :
        Change (disable_owned panel now w owned).0 w.db (disable_owned panel now w owned).1.db
    unfolding disable_owned
    disable_owned-Change =
        let (c, l) = owned in
        let r = tell_enabled panel now false c l.panel_inbound_id w in
        elim (Bool-cases (config_disabled c.status)) [
          | inl already ↦ rw already Change.leaves
          | inr open_yet ↦ rw open_yet (
              unless_unreachable-Change k c l (set_status panel now ConfigStatus.disabled) w.db r.0
                r.1 h (IsEdit-set_status ConfigStatus.disabled)
                (tell_enabled-db false c l.panel_inbound_id w))
        ]

    enable_owned-Change :
        Change (enable_owned panel now w owned).0 w.db (enable_owned panel now w owned).1.db
    unfolding enable_owned
    enable_owned-Change =
        let (c, l) = owned in
        let r = tell_enabled panel now true c l.panel_inbound_id w in
        elim (Bool-cases (listing_active l.status)) [
          | inr paused ↦ rw paused (Change.refuses HttpError.listing_not_active)
          | inl selling ↦ elim (Bool-cases (config_active c.status)) [
            | inl already ↦ rw (selling, already) Change.leaves
            | inr cut ↦
                rw (selling, cut)
                  (unless_unreachable-Change k c l (set_status panel now ConfigStatus.active) w.db
                    r.0 r.1 h (IsEdit-set_status ConfigStatus.active)
                    (tell_enabled-db true c l.panel_inbound_id w))
          ]
        ]

    delete_owned-Change :
        Change (delete_owned panel now w owned).0 w.db (delete_owned panel now w owned).1.db
    unfolding delete_owned
    delete_owned-Change =
        let (c, l) = owned in
        let r = tell_deleted panel now c l.panel_inbound_id w in
        unless_unreachable-Change k c l (set_deleted panel now) w.db r.0 r.1 h IsEdit-set_deleted
          (tell_deleted-db c l.panel_inbound_id w)

  IsEdit-patch :
      (name : Option Text) (b : Option Bool) → IsEdit (λ c. set_auto_disable b (set_name name c))
  IsEdit-patch name b = record {
    keeps_id = λ c. ground arith;
    keeps_buyer = λ c. ground arith;
    keeps_listing = λ c. ground arith;
  }

  check_patch-owned :
      (k : ℕ) (body : ConfigPatchIn) (db : Db) (checked : Config × (Config → Config))
      → check_patch k user body db ≡ ok checked
      → (l : Listing) × (load_owned_config k user db ≡ ok (checked.0, l)) × IsEdit checked.1
  unfolding check_patch
  check_patch-owned k body db checked h =
      let (u, fits, rest) =
        >>=-ok (raise_if (not (is_patch_body body)) HttpError.invalid_body) _ checked h in
      let (owned, loaded, more) = >>=-ok (load_owned_config k user db) _ checked rest in
      let (name, named, last) = >>=-ok (checked_name body.name) _ checked more in
      subst (λ x. (l : Listing) × (load_owned_config k user db ≡ ok (x.0, l)) × IsEdit x.1)
        (ok-injective _ checked last)
        (owned.1, loaded, IsEdit-patch name body.auto_disable_on_price_increase)

  -- Every request does one of these.
  pub handle-Change : (r : ConfigRequest) (w : World) → Change (handle r w).0 w.db (handle r w).1.db
  unfolding handle create_config disable_config enable_config delete_config patch_config provision
      disable_owned enable_owned delete_owned
  handle-Change (ConfigRequest.create body) w =
      when_ok-Change (check_create user body w.db) w _
        (λ checked h. store_config-Change body checked w.db _ _ h (ask-db _ _ w))
  handle-Change (ConfigRequest.disable k) w =
      when_ok-Change (load_owned_config k user w.db) w (disable_owned panel now w)
        (disable_owned-Change k w)
  handle-Change (ConfigRequest.enable k) w =
      when_ok-Change (load_owned_config k user w.db) w (enable_owned panel now w)
        (enable_owned-Change k w)
  handle-Change (ConfigRequest.delete k) w =
      when_ok-Change (load_owned_config k user w.db) w (delete_owned panel now w)
        (delete_owned-Change k w)
  handle-Change (ConfigRequest.patch k body) w =
      when_ok-Change (check_patch k user body w.db) w _ (λ checked h.
        let (l, loaded, edit) = check_patch-owned k body w.db checked h in
        Change.edits k checked.0 l checked.1 loaded edit)
