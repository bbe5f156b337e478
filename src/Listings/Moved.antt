-- ===== src/Listings/Moved.antt =====
-- What a new host does to the links of the buyers.
use abr_out.Prelude.{
  ℕ, List, [], ◌∷◌, Option, none, some, Bool, true, false, ◌≡◌, ◌⊎◌, ◌==◌, refl, sym, ap, ◌∙◌,
  arith, inl, inr, Bool-cases, if◌then◌else◌,
}
use mathlib.Core.Path.{subst}
use abr_out.Prelude.Text.{Text}
use abr_out.Prelude.Rows.{first_row, update_rows, select, contains}
use abr_out.Models.{Db, Listing, Config, ConfigStatus}
use abr_out.Outside.{World, Panel, Message}
use abr_out.Http.{HttpError, ok, fail}
use abr_out.Notifications.{notify_listing_buyers}
use abr_out.Health.Passes.{notify_listing_buyers-db}
use abr_out.Vless.{is_digit}
use abr_out.Listings.{load_owned_listing}
use abr_out.Listings.Link.{match_at, is_dotted, rewrite_vless_host, rewrite_vless_host-breaks}
use abr_out.Listings.Patch.{
  ListingPatchIn, check_edit, patch_listing, patch_owned, store_edit, links_of, relink, keep_link,
  relink_all, stop_all, notify_edit, host_changed, edit, price_pass, opted_in, price_increased,
}
use abr_out.Listings.Removal.{kept_of}

-- No link, or a text that is none.
abbrev IsMangled : Option Text → Type 0
IsMangled none = Unit
IsMangled (some s) = match_at s ≡ none

-- The rewriting raised, or the config's link is no link any more.
abbrev IsBroken : ℕ → Option (List Config) → Type 0
IsBroken j none = Unit
IsBroken j (some cs) =
    (c : Config) × (first_row (λ x. x.id == j) cs ≡ some c) × (match_at c.vless_link ≡ none)

rewrite-IsMangled :
    (link : Text) (d : ℕ) (host : Text) (port : ℕ) (m : Text × Text)
    → is_digit d ≡ true
    → is_dotted host ≡ true
    → match_at link ≡ some m
    → IsMangled (rewrite_vless_host link (d ∷ host) port)
rewrite-IsMangled link d host port m digit dotted matched =
    elim (rewrite_vless_host-breaks link d host port m digit dotted matched) [
      | inl raised ↦ subst IsMangled (sym raised) tt
      | inr mangled ↦ let (s, wrote, gone) = mangled in subst IsMangled (sym wrote) gone
    ]

keep_link-IsBroken :
    (j : ℕ) (x : Config) (o : Option (List Config))
    → (x.id == j) ≡ false
    → IsBroken j o
    → IsBroken j (keep_link x o)
unfolding first_row
keep_link-IsBroken j x none h b = tt
keep_link-IsBroken j x (some cs) h (c, found, gone) = (c, rw h found, gone)

relink-IsBroken :
    (j : ℕ) (x : Config) (link : Option Text) (o : Option (List Config))
    → (x.id == j) ≡ false
    → IsBroken j o
    → IsBroken j (relink x link o)
unfolding first_row
relink-IsBroken j x none o h b = tt
relink-IsBroken j x (some s) none h b = tt
relink-IsBroken j x (some s) (some cs) h (c, found, gone) = (c, rw h found, gone)

relink-hit :
    (j : ℕ) (x : Config) (link : Option Text) (o : Option (List Config))
    → (x.id == j) ≡ true
    → IsMangled link
    → IsBroken j (relink x link o)
unfolding first_row
relink-hit j x none o h b = tt
relink-hit j x (some s) none h b = tt
relink-hit j x (some s) (some cs) h b = (record x { vless_link = s }, rw h refl, b)

relink_all-IsBroken :
    (listing port d j : ℕ) (host : Text) (c : Config) (m : Text × Text) (cs : List Config)
    → is_digit d ≡ true
    → is_dotted host ≡ true
    → kept_of listing c ≡ true
    → match_at c.vless_link ≡ some m
    → first_row (λ x. x.id == j) cs ≡ some c
    → IsBroken j (relink_all listing (d ∷ host) port cs)
unfolding relink_all first_row
relink_all-IsBroken listing port d j host c m [] digit dotted kept matched found = cc
relink_all-IsBroken listing port d j host c m (x ∷ xs) digit dotted kept matched found =
    let rest = relink_all listing (d ∷ host) port xs in
    elim (Bool-cases (x.id == j)) [
      | inl hit ↦
          let same : x ≡ c = ground (arith, hit, found) in
          let mangled = rewrite-IsMangled c.vless_link d host port m digit dotted matched in
          rw (ap (kept_of listing) same ∙ kept) (
            relink-hit j x (rewrite_vless_host x.vless_link (d ∷ host) port) rest hit (
              subst (λ y. IsMangled (rewrite_vless_host y.vless_link (d ∷ host) port)) (sym same)
                mangled))
      | inr miss ↦
          let ih =
            relink_all-IsBroken listing port d j host c m xs digit dotted kept matched
              (ground (arith, miss, found)) in
          elim (Bool-cases (kept_of listing x)) [
            | inl here ↦ rw here (relink-IsBroken j x _ rest miss ih)
            | inr elsewhere ↦ rw elsewhere (keep_link-IsBroken j x rest miss ih)
          ]
    ]

-- To disable configs keeps their links.
module _ (panel : Panel) (ids : List ℕ) where
  stopped : Config → Config
  stopped c = if contains c.id ids then record c { status = ConfigStatus.disabled } else c

  stopped-link : (c : Config) → (stopped c).vless_link ≡ c.vless_link
  unfolding stopped
  stopped-link c = ground arith

  stop_all-row :
      (j : ℕ) (c : Config) (cs : List Config)
      → first_row (λ x. x.id == j) cs ≡ some c
      → first_row (λ x. x.id == j) (stop_all panel ids cs) ≡ some (stopped c)
  unfolding first_row update_rows stopped
  stop_all-row j c [] found = cc
  stop_all-row j c (x ∷ xs) found = ground (arith, found, stop_all-row j c xs)

notify_edit-db :
    (panel : Panel) (body : ListingPatchIn) (old l : Listing) (ids : List ℕ) (w : World)
    → (notify_edit panel body old l ids w).db ≡ w.db
unfolding notify_edit
notify_edit-db panel body old l ids w =
    let moved = Message.listing_moved l.id old.iran_host l.iran_host in
    let raised = Message.price_raised l.id in
    ground (
      arith,
      notify_listing_buyers-db l.id moved false false w,
      notify_listing_buyers-db l.id raised true false w,
      notify_listing_buyers-db l.id raised true false
          (notify_listing_buyers l.id moved false false w),
    )

store_edit-broken :
    (panel : Panel) (pending_until j : ℕ) (body : ListingPatchIn) (l : Listing) (w : World)
    (o : Option (List Config))
    → IsBroken j o
    → let (answer, w') = store_edit panel pending_until body l w o in
      (answer ≡ fail HttpError.server_error)
      ⊎ ((c : Config) × (first_row (λ x. x.id == j) w'.db.configs ≡ some c)
          × (match_at c.vless_link ≡ none))
unfolding store_edit
store_edit-broken panel pending_until j body l w none b = inl refl
store_edit-broken panel pending_until j body l w (some cs) (c, found, gone) =
    let l' = edit pending_until body l in
    let increased = price_increased body.price_per_gb_usd l.price_per_gb_usd in
    let (ids, told) = price_pass panel increased l.panel_inbound_id (select (opted_in l.id) cs) w in
    inr (
      stopped panel ids c,
      ap (λ d. first_row (λ x. x.id == j) d.configs) (notify_edit-db panel body l l' ids _)
          ∙ stop_all-row panel ids j c cs found,
      ap match_at (stopped-link panel ids c) ∙ gone,
    )

edit-host :
    (panel : Panel) (pending_until : ℕ) (body : ListingPatchIn) (l : Listing) (host : Text)
    → body.iran_host ≡ some host
    → (edit pending_until body l).iran_host ≡ host
edit-host panel pending_until body l host h = ground (arith, h)

links_of-changed :
    (panel : Panel) (pending_until : ℕ) (body : ListingPatchIn) (l : Listing) (db : Db)
    (host : Text)
    → host_changed body l ≡ true
    → body.iran_host ≡ some host
    → links_of panel pending_until body l db ≡ relink_all l.id host l.port db.configs
links_of-changed panel pending_until body l db host changed named =
    let links : Text → Option (List Config) = λ h. relink_all l.id h l.port db.configs in
    ap (λ (b : Bool). if b then links (edit pending_until body l).iran_host else some db.configs)
      changed
    ∙ ap links (edit-host panel pending_until body l host named)

-- A seller who moves a listing to another host breaks the link of every config under it that is not
-- deleted and has one: where the request passes its checks and the new host, digits and dots that
-- begin with a digit, differs from the old one, it ends in a server error, or what it leaves in the
-- config in place of the link is no link.
pub patch_listing-breaks_links :
    (panel : Panel) (pending_until : ℕ) (is_flagged : ℕ → Bool) (k user j d : ℕ)
    (body checked : ListingPatchIn) (w : World) (l : Listing) (host : Text) (c : Config)
    (m : Text × Text)
    → check_edit is_flagged body ≡ ok checked
    → load_owned_listing k user w.db ≡ ok l
    → checked.iran_host ≡ some (d ∷ host)
    → is_digit d ≡ true
    → is_dotted host ≡ true
    → host_changed checked l ≡ true
    → first_row (λ x. x.id == j) w.db.configs ≡ some c
    → kept_of l.id c ≡ true
    → match_at c.vless_link ≡ some m
    → let (answer, w') = patch_listing panel pending_until is_flagged k user body w in
      (answer ≡ fail HttpError.server_error)
      ⊎ ((c' : Config) × (first_row (λ x. x.id == j) w'.db.configs ≡ some c')
          × (match_at c'.vless_link ≡ none))
unfolding patch_listing patch_owned
patch_listing-breaks_links panel pending_until is_flagged k user j d body checked w l host c m
      passed owned named digit dotted changed found kept matched =
    let relinked =
      relink_all-IsBroken l.id l.port d j host c m w.db.configs digit dotted kept matched found in
    rw (passed, owned)
      (store_edit-broken panel pending_until j checked l w
        (links_of panel pending_until checked l w.db)
        (subst (IsBroken j)
          (sym (links_of-changed panel pending_until checked l w.db (d ∷ host) changed named))
          relinked))
