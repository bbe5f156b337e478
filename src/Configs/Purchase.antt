-- ===== src/Configs/Purchase.antt =====
-- What a buyer gets: the conditions of a purchase, and the texts that go to the panel.
use abr_out.Prelude.{
  take, ℕ, suc, zero, ◌≤◌, [], ◌∷◌, some, Bool, true, false, ◌≡◌, ◌≢◌, ◌==◌, ◌&&◌, refl, arith, inl,
  inr, Bool-cases, length, is_some, if◌then◌else◌,
}
use mathlib.Core.Path.{subst}
use abr_out.Prelude.Int.{◌≤ℤ◌}
use abr_out.Prelude.Text.{Text}
use abr_out.Prelude.Rows.{first_row}
use abr_out.Models.{Db, Config, ConfigStatus, Listing, ListingStatus}
use abr_out.Outside.{World, Panel, Reply}
use abr_out.Wallet.{usd_of}
use abr_out.Http.{Outcome, ok, fail, ok-injective}
use abr_out.Vless.{
  is_space, is_plain, all_plain, squeeze, sanitize_name, name_max_len, lstrip, rstrip,
}
use abr_out.Configs.{
  ConfigCreateIn, min_balance_for_new_config, check_create, create_config, provision, store_config,
  new_config, when_ok,
}

length-take : (n : ℕ) (s : Text) → length (take n s) ≤ n
unfolding take
length-take n [] = omega arith
length-take zero (c ∷ s) = omega arith
length-take (suc n) (c ∷ s) = omega (arith, length-take n s)

-- What `_sanitize_name` lets through: plain characters, thirty-two of them at most.
sanitize_name_lem :
    (raw : Text)
    → (all_plain (sanitize_name raw) ≡ true) × (length (sanitize_name raw) ≤ name_max_len)
unfolding sanitize_name all_plain
sanitize_name_lem raw =
    let s = take name_max_len (squeeze b' ' false (rstrip (lstrip raw))) in
    ground (arith, length-take name_max_len (squeeze b' ' false (rstrip (lstrip raw))))

and_parts : (a b : Bool) → (a && b) ≡ true → (a ≡ true) × (b ≡ true)
and_parts a b h = ground arith

both : (a b : Bool) → a ≡ true → b ≡ true → (a && b) ≡ true
both a b h k = rw (h, k) refl

squeeze_gap :
    (run : Bool) (s : Text)
    → all_plain (squeeze b'_' true s) ≡ true
    → all_plain (if run then squeeze b'_' true s else b'_' ∷ squeeze b'_' true s) ≡ true
unfolding all_plain
squeeze_gap true s h = h
squeeze_gap false s h = h

squeeze-all_plain :
    (run : Bool) (s : Text) → all_plain s ≡ true → all_plain (squeeze b'_' run s) ≡ true
unfolding squeeze all_plain
squeeze-all_plain run [] h = refl
squeeze-all_plain run (c ∷ s) h =
    let (first, rest) = and_parts (is_plain c) (all_plain s) h in
    elim (Bool-cases (is_space c)) [
      | inr letter ↦ rw letter (both _ _ first (squeeze-all_plain false s rest))
      | inl gap ↦ rw gap (squeeze_gap run s (squeeze-all_plain true s rest))
    ]

check_create-sold :
    (user : ℕ) (body : ConfigCreateIn) (db : Db) (name : Text) (l : Listing) (inbound : ℕ)
    → check_create user body db ≡ ok (name, l, inbound)
    → (first_row (λ x. x.id == body.listing_id) db.listings ≡ some l)
      × (l.status ≡ ListingStatus.active)
      × (l.seller_user_id ≢ user)
      × (l.panel_inbound_id ≡ some inbound)
      × (min_balance_for_new_config ≤ℤ usd_of db user)
      × (name ≡ sanitize_name body.name)
unfolding check_create
check_create-sold user body db name l inbound h = ground arith

-- The config is an active one of the user's under a listing that is on sale, has an inbound on the
-- panel and is not the user's own;
-- the user has at least half a dollar; and the name is the given one, sanitised.
abbrev pub IsSold : ℕ → ConfigCreateIn → Db → Config → Type 0
IsSold user body db c =
    (l : Listing) × (first_row (λ x. x.id == body.listing_id) db.listings ≡ some l)
    × (l.status ≡ ListingStatus.active)
    × (is_some l.panel_inbound_id ≡ true)
    × (l.seller_user_id ≢ user)
    × (min_balance_for_new_config ≤ℤ usd_of db user)
    × (c.listing_id ≡ l.id)
    × (c.buyer_user_id ≡ user)
    × (c.status ≡ ConfigStatus.active)
    × (c.name ≡ sanitize_name body.name)
    × (all_plain c.name ≡ true)
    × (length c.name ≤ name_max_len)

module _ (panel : Panel) (uuid_text uuid_hex : ℕ → Text) (now id uuid : ℕ) where
  store_config-ok :
      (c c' : Config) (r : Reply) (w : World)
      → (store_config panel uuid_text uuid_hex now id uuid c (r, w)).0 ≡ ok c'
      → c ≡ c'
  store_config-ok c c' Reply.done w h = ok-injective c c' h
  store_config-ok c c' Reply.refused w h = cc
  store_config-ok c c' Reply.unreachable w h = cc

  when_ok-ok :
      {A : Type 0} (o : Outcome A) (w : World) (next : A → Outcome Config × World) (c : Config)
      → (when_ok o w next).0 ≡ ok c
      → (a : A) × (o ≡ ok a) × ((next a).0 ≡ ok c)
  when_ok-ok (ok a) w next c h = (a, refl, h)
  when_ok-ok (fail e) w next c h = cc

  -- A config that `create_config` sells is an active one of the buyer's under a listing that is on
  -- sale, has an inbound on the panel and is not the buyer's own; the buyer has at least half a dollar; and its
  -- name is the given one with its white space trimmed, of thirty-two plain characters at most.
  pub create_config-IsSold :
      (user : ℕ) (body : ConfigCreateIn) (w : World) (c : Config)
      → (create_config panel uuid_text uuid_hex now id uuid user body w).0 ≡ ok c
      → IsSold user body w.db c
  unfolding create_config provision new_config
  create_config-IsSold user body w c h =
      let (checked, passed, stored) = when_ok-ok (check_create user body w.db) w _ c h in
      let (name, l, inbound) = checked in
      let (found, active, other, there, rich, named) =
        check_create-sold user body w.db name l inbound passed in
      let (plain, short) = sanitize_name_lem body.name in
      subst (IsSold user body w.db)
        (store_config-ok (new_config panel uuid_text uuid_hex now id uuid user body name l) c _ _
          stored)
        (
          l,
          found,
          active,
          rw there refl,
          other,
          rich,
          refl,
          refl,
          refl,
          named,
          rw named plain,
          rw named short,
        )
