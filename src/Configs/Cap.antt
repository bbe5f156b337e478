-- ===== src/Configs/Cap.antt =====
-- How many configs a buyer holds under one listing, and what becomes of deleted configs.
use abr_out.Prelude.{
  ℕ, ◌≤◌, List, [], ◌∷◌, Option, some, Bool, true, false, ◌≡◌, ◌==◌, ◌&&◌, ==→eq, none, sym, ap,
  ◌∙◌, arith, All, leb, inl, inr, Bool-cases, length,
}
use mathlib.Core.Path.{subst}
use abr_out.Prelude.Text.{Text}
use abr_out.Prelude.Rows.{select, update_rows, first_row}
use abr_out.Prelude.Keyed.{IsKey, first_row-only, first_row-passes}
use abr_out.Models.{Db, Config, Listing, config_deleted}
use abr_out.Outside.{World, Panel}
use abr_out.Http.{Outcome, ok}
use abr_out.Configs.{
  check_create, new_config, existing_count, takes_slot, max_configs_per_listing_per_buyer,
}
use abr_out.Configs.Owner.{load_owned_config-owned}
use abr_out.Configs.Requests.{ConfigRequest, handle, Change, handle-Change, IsEdit}

-- No buyer has more than twenty configs that are not deleted under one listing.
abbrev pub IsCapped : Db → Type 0
IsCapped db =
    (listing buyer : ℕ) → existing_count listing buyer db ≤ max_configs_per_listing_per_buyer

-- An edit of a config that is not deleted takes no new slot.
slots-update_rows :
    (listing buyer : ℕ) (c : Config) (f : Config → Config) (cs : List Config)
    → All (λ x. (x.id == c.id) ≡ true → x ≡ c) cs
    → config_deleted c.status ≡ false
    → IsEdit f
    → length (select (takes_slot listing buyer) (update_rows (λ x. x.id == c.id) f cs))
      ≤ length (select (takes_slot listing buyer) cs)
unfolding select update_rows
slots-update_rows listing buyer c f [] own live edit = omega arith
slots-update_rows listing buyer c f (x ∷ xs) own live edit = elim (Bool-cases (x.id == c.id)) [
  | inl hit ↦ ground (
    arith,
    hit,
    live,
    own.0 hit,
    edit.keeps_buyer x,
    edit.keeps_listing x,
    slots-update_rows listing buyer c f xs own.1 live edit,
  )
  | inr miss ↦ ground (arith, miss, slots-update_rows listing buyer c f xs own.1 live edit)
]

-- What the checks of a purchase vouch for.
pub check_create-slots :
    (user : ℕ) (body : _) (db : Db) (name : Text) (l : Listing) (inbound : ℕ)
    → check_create user body db ≡ ok (name, l, inbound)
    → leb max_configs_per_listing_per_buyer (existing_count l.id user db) ≡ false
unfolding check_create
check_create-slots user body db name l inbound h = ground arith

-- A deleted row is not the one that an edit of a config that is not deleted finds.
deleted-update_rows :
    (k : ℕ) (x c : Config) (f : Config → Config) (cs : List Config)
    → first_row (λ y. y.id == k) cs ≡ some x
    → (c.id == k) ≡ false
    → IsEdit f
    → first_row (λ y. y.id == k) (update_rows (λ y. y.id == c.id) f cs) ≡ some x
unfolding first_row update_rows
deleted-update_rows k x c f [] h other edit = cc
deleted-update_rows k x c f (y ∷ ys) h other edit = elim (Bool-cases (y.id == c.id)) [
  | inl hit ↦ ground (arith, hit, other, edit.keeps_id y, deleted-update_rows k x c f ys)
  | inr miss ↦ ground (arith, miss, deleted-update_rows k x c f ys)
]

abbrev is_deleted : Option Config → Bool
is_deleted none = false
is_deleted (some c) = config_deleted c.status

other_row :
    (j k : ℕ) (x c : Config) (cs : List Config)
    → first_row (λ y. y.id == k) cs ≡ some x
    → config_deleted x.status ≡ true
    → first_row (λ y. y.id == j) cs ≡ some c
    → config_deleted c.status ≡ false
    → (c.id == k) ≡ false
other_row j k x c cs found gone hit live = elim (Bool-cases (c.id == k)) [
  | inr apart ↦ apart
  | inl same ↦
      let named = ==→eq c.id j (first_row-passes (λ y. y.id == j) c cs hit) in
      let again =
        subst (λ i. first_row (λ y. y.id == i) cs ≡ some c) (sym named ∙ ==→eq c.id k same) hit in
      cc (ap (λ o. is_deleted o) (sym found ∙ again))
]

module _ (panel : Panel) (uuid_text uuid_hex : ℕ → Text) (now id uuid user : ℕ) where
  Change-IsCapped :
      (o : Outcome Config) (db db' : Db)
      → IsKey (λ c. c.id) db.configs
      → IsCapped db
      → Change panel uuid_text uuid_hex now id uuid user o db db'
      → IsCapped db'
  unfolding existing_count select new_config
  Change-IsCapped _ db _ key cap (Change.refuses e) listing buyer = cap listing buyer
  Change-IsCapped _ db _ key cap Change.leaves listing buyer = cap listing buyer
  Change-IsCapped _ db _ key cap (Change.edits k c l f loaded edit) listing buyer =
      let (found, mine, live) = load_owned_config-owned k user db c l loaded in
      let own = first_row-only (λ x. x.id) k c db.configs key found in
      omega (arith, cap listing buyer, slots-update_rows listing buyer c f db.configs own live edit)
  Change-IsCapped _ db _ key cap (Change.buys body checked h) listing buyer =
      let (name, l, inbound) = checked in
      let few = check_create-slots user body db name l inbound h in
      elim (Bool-cases (l.id == listing && user == buyer)) [
        | inr apart ↦ ground (arith, apart, cap listing buyer)
        | inl same ↦
            let there = ==→eq l.id listing (ground (arith, same)) in
            let theirs = ==→eq user buyer (ground (arith, same)) in
            ground (
              arith,
              few,
              ap (λ a. existing_count a user db) there
                  ∙ ap (λ b. existing_count listing b db) theirs,
            )
      ]

  Change-deleted :
      (o : Outcome Config) (db db' : Db) (k : ℕ) (x : Config)
      → first_row (λ c. c.id == k) db.configs ≡ some x
      → config_deleted x.status ≡ true
      → (id == k) ≡ false
      → Change panel uuid_text uuid_hex now id uuid user o db db'
      → first_row (λ c. c.id == k) db'.configs ≡ some x
  unfolding first_row new_config
  Change-deleted _ db _ k x found gone fresh (Change.refuses e) = found
  Change-deleted _ db _ k x found gone fresh Change.leaves = found
  Change-deleted _ db _ k x found gone fresh (Change.edits j c l f loaded edit) =
      let (hit, mine, live) = load_owned_config-owned j user db c l loaded in
      deleted-update_rows k x c f db.configs found
        (other_row j k x c db.configs found gone hit live) edit
  Change-deleted _ db _ k x found gone fresh (Change.buys body checked h) = rw fresh found

  -- Where the ids of the configs are a key, every request keeps the configs of each buyer under each
  -- listing that are not deleted at twenty or fewer.
  pub handle-IsCapped :
      (r : ConfigRequest) (w : World)
      → IsKey (λ c. c.id) w.db.configs
      → IsCapped w.db
      → IsCapped (handle panel uuid_text uuid_hex now id uuid user r w).1.db
  handle-IsCapped r w key cap =
      Change-IsCapped _ w.db _ key cap (handle-Change panel uuid_text uuid_hex now id uuid user r w)

  -- A deleted config stays the row it is, whatever request comes, unless the request creates a config
  -- with its id.
  pub handle-deleted :
      (r : ConfigRequest) (w : World) (k : ℕ) (x : Config)
      → first_row (λ c. c.id == k) w.db.configs ≡ some x
      → config_deleted x.status ≡ true
      → (id == k) ≡ false
      → first_row
          (λ c. c.id == k)
          (handle panel uuid_text uuid_hex now id uuid user r w).1.db.configs
        ≡ some x
  handle-deleted r w k x found gone fresh =
      Change-deleted _ w.db _ k x found gone fresh
        (handle-Change panel uuid_text uuid_hex now id uuid user r w)
