-- ===== src/Quota/Enforced.antt =====
-- What a run of the quota job leaves in the tables.
use abr_out.Prelude.{
  ℕ, zero, suc, ◌+◌, ◌*◌, Option, none, some, true, false, ◌&&◌, is_some, leb, List, [], ◌∷◌, ◌≡◌,
  Bool, ◌==◌, refl, ◌∙◌, inl, inr, ap, arith, if◌then◌else◌, Bool-cases,
}
use mathlib.Core.Path.{fun_ext}
use abr_out.Prelude.Int.{ℤ, pos, negsuc}
use abr_out.Prelude.Rounding.{round_half_even}
use abr_out.Prelude.Rows.{update_rows, first_row, exists_row, total_rows, select}
use abr_out.Prelude.Keyed.{IsKey, update_each}
use abr_out.Models.{Db, Config, ConfigStatus, ConfigUsage, Listing}
use abr_out.Outside.{World, Effect, emit}
use abr_out.Join.{selected, join_listing, update_each-join, listing_of, test_pair}
use abr_out.Quota.{
  capped, over_limit, limit_bytes, used_bytes, set_disabled, disable_on_panel, enforce_row,
  enforce_rows, notify_quota, announce_quotas, enforce_quotas_once,
}

abbrev pub over_row : Db → Config × Listing → Bool
over_row db (c, l) = over_limit c.total_gb_limit (used_bytes db c.id)

-- What a row of the loop, and what the whole loop, tests a config for.
abbrev is_over : Db → Config → Bool
is_over db = selected capped db.listings (over_row db)

abbrev is_running : ConfigStatus → Bool
is_running ConfigStatus.active = true
is_running _ = false

-- A limit above zero, in 10^-4 GiB, is reached at its whole bytes.
abbrev is_reached : Option ℤ → ℕ → Bool
is_reached (some (pos (suc n))) used = leb (round_half_even (suc n * 1_073_741_824) 10_000) used
is_reached _ used = false

-- The bytes of all usage rows of a config.
abbrev bytes_of : List ConfigUsage → ℕ → ℕ
bytes_of [] k = 0
bytes_of (u ∷ us) k = (if u.config_id == k then u.delta_total_bytes else 0) + bytes_of us k

-- The config is active, its listing is there, and its usage has come to its limit.
abbrev pub is_spent : Db → Config → Bool
is_spent db c =
    is_running c.status
    && exists_row (λ l. l.id == c.listing_id) db.listings
    && is_reached c.total_gb_limit (bytes_of db.config_usage c.id)

total_rows-bytes_of :
    (k : ℕ) (us : List ConfigUsage)
    → total_rows (λ u. u.delta_total_bytes) (select (λ u. u.config_id == k) us) ≡ bytes_of us k
unfolding total_rows select
total_rows-bytes_of k [] = refl
total_rows-bytes_of k (u ∷ us) = ground (arith, total_rows-bytes_of k us)

used_bytes-bytes_of : (db : Db) (k : ℕ) → used_bytes db k ≡ bytes_of db.config_usage k
unfolding used_bytes
used_bytes-bytes_of db k = total_rows-bytes_of k db.config_usage

over_limit-is_reached :
    (limit : Option ℤ) (used : ℕ) → over_limit limit used ≡ is_reached limit used
unfolding over_limit limit_bytes
over_limit-is_reached none used = refl
over_limit-is_reached (some (negsuc n)) used = refl
over_limit-is_reached (some (pos zero)) used = refl
over_limit-is_reached (some (pos (suc n))) used = ground arith

capped-is_running :
    (c : Config) (used : ℕ)
    → (capped c && over_limit c.total_gb_limit used)
      ≡ (is_running c.status && over_limit c.total_gb_limit used)
unfolding over_limit
capped-is_running c used = ground arith

is_some-exists_row :
    (ls : List Listing) (k : ℕ)
    → is_some (first_row (λ l. l.id == k) ls) ≡ exists_row (λ l. l.id == k) ls
unfolding first_row exists_row
is_some-exists_row [] k = refl
is_some-exists_row (l ∷ ls) k = ground (arith, is_some-exists_row ls k)

test_pair-is_some :
    (db : Db) (c : Config) (o : Option Listing)
    → test_pair (over_row db) c o ≡ (is_some o && over_limit c.total_gb_limit (used_bytes db c.id))
test_pair-is_some db c none = refl
test_pair-is_some db c (some l) = refl

is_over-is_spent : (db : Db) (c : Config) → is_over db c ≡ is_spent db c
is_over-is_spent db c =
    let used = used_bytes db c.id in
    rw
      (
        test_pair-is_some db c (listing_of db.listings c),
        is_some-exists_row db.listings c.listing_id,
        ← used_bytes-bytes_of db c.id,
        ← over_limit-is_reached c.total_gb_limit used,
      )
      (ground (arith, capped-is_running c used))

pub disable_on_panel-db :
    (c : Config) (l : Listing) (w : World) → (disable_on_panel c l w).db ≡ w.db
unfolding disable_on_panel
disable_on_panel-db c l w = ground arith

notify_quota-db : (cs : List Config) (w : World) → (notify_quota cs w).db ≡ w.db
unfolding notify_quota
notify_quota-db [] w = refl
notify_quota-db (c ∷ cs) w = notify_quota-db cs w

abbrev pub with_configs : Db → List Config → Db
with_configs db cs = record db { configs = cs }

enforce_row-db :
    (read : Db) (c : Config) (l : Listing) (w : World) (ns : List Config)
    → (enforce_row read (c, l) (w, ns)).0.db
      ≡ with_configs w.db (
          if over_row read (c, l)
          then update_rows (λ x. x.id == c.id) set_disabled w.db.configs
          else w.db.configs)
unfolding enforce_row
enforce_row-db read c l w ns = elim (Bool-cases (over_row read (c, l))) [
  | inl hit ↦ rw hit (
      ap (λ d. with_configs d (update_rows (λ x. x.id == c.id) set_disabled d.configs))
        (disable_on_panel-db c l w))
  | inr miss ↦ rw miss
]

enforce_rows-db :
    (read : Db) (rs : List (Config × Listing)) (w : World) (ns : List Config)
    → (enforce_rows read rs (w, ns)).0.db
      ≡ with_configs w.db
          (update_each (λ c. c.id) set_disabled (λ r. r.0.id) (over_row read) rs w.db.configs)
unfolding enforce_rows update_each
enforce_rows-db read [] w ns = refl
enforce_rows-db read ((c, l) ∷ rs) w ns =
    let s = enforce_row read (c, l) (w, ns) in
    enforce_rows-db read rs s.0 s.1
    ∙ ap
        (λ d.
          with_configs d
            (update_each (λ c'. c'.id) set_disabled (λ r. r.0.id) (over_row read) rs d.configs))
        (enforce_row-db read c l w ns)

announce_quotas-db : (w : World) (ns : List Config) → (announce_quotas w ns).db ≡ w.db
unfolding announce_quotas
announce_quotas-db w [] = refl
announce_quotas-db w (c ∷ cs) = notify_quota-db (c ∷ cs) (emit Effect.restart_xray w)

-- A run of the quota job is one UPDATE: it sets the status of the configs that are active, have
-- their listing, and have a limit above zero that their bytes of usage reach or pass, to disabled,
-- and changes no other row, column or table, `auto_disabled_at` included. The ids of the configs are
-- a key.
pub enforce_quotas-refines :
    (w : World)
    → IsKey (λ c. c.id) w.db.configs
    → (enforce_quotas_once w).db ≡ record w.db {
      configs =
          update_rows
            (is_spent w.db)
            (λ c. record c { status = ConfigStatus.disabled })
            w.db.configs;
    }
unfolding enforce_quotas_once
enforce_quotas-refines w key =
    let s = enforce_rows w.db (join_listing capped w.db.listings w.db.configs) (w, []) in
    announce_quotas-db s.0 s.1
    ∙ enforce_rows-db w.db (join_listing capped w.db.listings w.db.configs) w []
    ∙ ap (with_configs w.db) (
        update_each-join capped w.db.listings (over_row w.db) set_disabled (λ a. refl) w.db.configs
          key
        ∙ ap (λ p. update_rows p set_disabled w.db.configs) (fun_ext (is_over-is_spent w.db)))

-- A run of the quota job leaves every table but the configs as it was.
pub enforce_quotas_tables :
    (w : World) → (cs : List Config) × ((enforce_quotas_once w).db ≡ with_configs w.db cs)
unfolding enforce_quotas_once
enforce_quotas_tables w =
    let s = enforce_rows w.db (join_listing capped w.db.listings w.db.configs) (w, []) in
    (
      _,
      announce_quotas-db s.0 s.1
          ∙ enforce_rows-db w.db (join_listing capped w.db.listings w.db.configs) w [],
    )
