-- ===== src/Configs/Owner.antt =====
-- Whose configs a request touches, and what it leaves when it fails.
use abr_out.Prelude.{
  ℕ, List, [], ◌∷◌, some, true, false, not, ◌≡◌, ◌==◌, ==-refl, refl, arith, All, inl, inr,
  Bool-cases,
}
use abr_out.Prelude.Text.{Text}
use abr_out.Prelude.Rows.{select, update_rows, first_row}
use abr_out.Prelude.Keyed.{IsKey, first_row-only}
use abr_out.Models.{Db, Config, Listing, config_deleted}
use abr_out.Outside.{World, Panel}
use abr_out.Http.{HttpError, Outcome, ok, fail}
use abr_out.Configs.{new_config}
use abr_out.Configs.Edit.{load_owned_config}
use abr_out.Configs.Requests.{ConfigRequest, handle, Change, handle-Change, IsEdit}

-- What `_load_owned_config` vouches for.
pub load_owned_config-owned :
    (k user : ℕ) (db : Db) (c : Config) (l : Listing)
    → load_owned_config k user db ≡ ok (c, l)
    → (first_row (λ x. x.id == k) db.configs ≡ some c)
      × (c.buyer_user_id ≡ user)
      × (config_deleted c.status ≡ false)
unfolding load_owned_config
load_owned_config-owned k user db c l h = ground arith

-- The configs of everybody but the user.
abbrev pub others : ℕ → Db → List Config
others user db = select (λ c. not (c.buyer_user_id == user)) db.configs

module _ (panel : Panel) (uuid_text uuid_hex : ℕ → Text) (now id uuid user : ℕ) where
  Change-error :
      (o : Outcome Config) (db db' : Db) (e : HttpError)
      → Change panel uuid_text uuid_hex now id uuid user o db db'
      → o ≡ fail e
      → db' ≡ db
  Change-error _ db _ e (Change.refuses e') h = refl
  Change-error _ db _ e Change.leaves h = refl
  Change-error _ db _ e (Change.edits k c l f owned edit) h = cc
  Change-error _ db _ e (Change.buys body checked h') h = cc

  -- A row that is not the buyer's is not changed by an update of one of the buyer's.
  select-update_rows :
      (c : Config) (f : Config → Config) (cs : List Config)
      → All (λ x. (x.id == c.id) ≡ true → x ≡ c) cs
      → c.buyer_user_id ≡ user
      → IsEdit f
      → select (λ x. not (x.buyer_user_id == user)) (update_rows (λ x. x.id == c.id) f cs)
        ≡ select (λ x. not (x.buyer_user_id == user)) cs
  unfolding select update_rows
  select-update_rows c f [] own mine edit = refl
  select-update_rows c f (x ∷ xs) own mine edit = elim (Bool-cases (x.id == c.id)) [
    | inl hit ↦
        ground
          (arith, mine, own.0 hit, edit.keeps_buyer x, select-update_rows c f xs own.1 mine edit)
    | inr miss ↦ ground (arith, miss, select-update_rows c f xs own.1 mine edit)
  ]

  Change-others :
      (o : Outcome Config) (db db' : Db)
      → IsKey (λ c. c.id) db.configs
      → Change panel uuid_text uuid_hex now id uuid user o db db'
      → (others user db' ≡ others user db)
        × (db' ≡ record db { configs = db'.configs; listings = db'.listings })
  unfolding select new_config
  Change-others _ db _ key (Change.refuses e) = (refl, refl)
  Change-others _ db _ key Change.leaves = (refl, refl)
  Change-others _ db _ key (Change.edits k c l f loaded edit) =
      let (found, mine, live) = load_owned_config-owned k user db c l loaded in
      (
        select-update_rows c f db.configs (first_row-only (λ x. x.id) k c db.configs key found) mine
            edit,
        refl,
      )
  Change-others _ db _ key (Change.buys body checked h) = (rw (==-refl user) refl, refl)

  -- A request that fails leaves the tables as they were, whatever the panel did.
  pub handle-error :
      (r : ConfigRequest) (w : World) (e : HttpError)
      → (handle panel uuid_text uuid_hex now id uuid user r w).0 ≡ fail e
      → (handle panel uuid_text uuid_hex now id uuid user r w).1.db ≡ w.db
  handle-error r w e h =
      Change-error _ _ _ e (handle-Change panel uuid_text uuid_hex now id uuid user r w) h

  -- Where the ids of the configs are a key, a request of a user leaves the configs of everybody else
  -- as they are, and every table but the configs and the listings.
  pub handle-others :
      (r : ConfigRequest) (w : World)
      → IsKey (λ c. c.id) w.db.configs
      → let db' = (handle panel uuid_text uuid_hex now id uuid user r w).1.db in
        (others user db' ≡ others user w.db)
        × (db' ≡ record (w.db) { configs = db'.configs; listings = db'.listings })
  handle-others r w key =
      Change-others _ w.db _ key (handle-Change panel uuid_text uuid_hex now id uuid user r w)
