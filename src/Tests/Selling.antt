-- ===== src/Tests/Selling.antt =====
-- Requests of seller 10: two new listings, one of which the panel refuses a probe client, a retried
-- test on an old sample, a deletion, and the rewriting of a link.
use abr_out.Prelude.{ℕ, [], ◌∷◌, ◌++◌, none, some, Bool, true, ◌≡◌, ◌⊎◌, ◌==◌, refl}
use abr_out.Prelude.Text.{Text, codes, same_text}
use abr_out.Prelude.Keyed.{IsKey}
use abr_out.Prelude.Rows.{first_row, exists_row, unique_on}
use abr_out.Models.{Db, Config, Listing, ListingStatus, PingSample}
use abr_out.Outside.{Panel, Reply, Effect}
use abr_out.Http.{HttpError, ok, fail}
use abr_out.Health.{had_ok, listing_quality_gate_once}
use abr_out.Health.Promises.{listing_row}
use abr_out.Vless.{vless_link}
use abr_out.Listings.{
  ListingCreateIn, check_listing, create_listing, save_listing, new_listing, load_owned_listing,
  validate_public_ipv4,
}
use abr_out.Listings.Cleanup.{last_request, create_listing-cleans}
use abr_out.Listings.Saved.{IsSaved, create_listing-IsSaved}
use abr_out.Listings.Link.{match_at, is_dotted, rewrite_vless_host}
use abr_out.Listings.Moved.{patch_listing-breaks_links}
use abr_out.Listings.Patch.{ListingPatchIn, check_edit, host_changed, patch_listing}
use abr_out.Listings.Retest.{retest, retry_listing, retry_listing-promotes}
use abr_out.Tests.Sample.{config, listing, market, panel, world_of}

abbrev offer : ListingCreateIn
offer = record {
  title = codes " my box ";
  iran_host = codes "5.6.7.8";
  port = 8_443;
  price_per_gb_usd = 5_000;
}

abbrev checked : ListingCreateIn
checked = record offer { title = codes "my box" }

abbrev private_only : ℕ → Bool
private_only ip = ip == 167_772_161

private_refused : validate_public_ipv4 private_only (codes "10.0.0.1") ≡ none
unfolding validate_public_ipv4
private_refused = refl

leading_zero_refused : validate_public_ipv4 private_only (codes "10.0.0.01") ≡ none
unfolding validate_public_ipv4
leading_zero_refused = refl

abbrev same : Db → Db
same db = db

abbrev made : Listing
made = new_listing panel 5 900 2 77 10 checked 8

passed : check_listing private_only 10 offer market ≡ ok checked
unfolding check_listing
passed = refl

saved_run :
    (create_listing panel 5 900 2 77 same private_only 10 offer (world_of market)).0 ≡ ok made
unfolding create_listing check_listing save_listing unique_on
saved_run = refl

create_listing-IsSaved_example :
    IsSaved 10 made market
      (create_listing panel 5 900 2 77 same private_only 10 offer (world_of market)).1.db
create_listing-IsSaved_example =
    create_listing-IsSaved panel 5 900 2 77 same private_only 10 offer (world_of market) made
      saved_run

abbrev no_clients : Panel
no_clients = record panel { add_client = λ inbound uuid email bytes expiry enable. Reply.refused }

failed_run :
    (create_listing no_clients 5 900 2 77 same private_only 10 offer (world_of market)).0
    ≡ fail HttpError.panel_error
unfolding create_listing check_listing
failed_run = refl

create_listing-cleans_example :
    last_request
      (create_listing no_clients 5 900 2 77 same private_only 10 offer (world_of market)).1
    ≡ some (Effect.remove_inbound 8)
create_listing-cleans_example =
    create_listing-cleans no_clients 5 900 2 77 refl same private_only 10 offer checked 8
      (world_of market) HttpError.panel_error passed refl failed_run

abbrev fallen : Listing
fallen = record listing { status = ListingStatus.broken; broken_since = some 500 }

abbrev heard_once : PingSample
heard_once = record { listing_id = 1; rtt_ms = none; ok = true; sampled_at = 10 }

abbrev stale : Db
stale = record market { listings = fallen ∷ []; ping_samples = heard_once ∷ [] }

stale_ids : IsKey (λ l. l.id) stale.listings
unfolding unique_on exists_row
stale_ids = refl

fallen_row : listing_row 1 stale ≡ some fallen
unfolding first_row
fallen_row = refl

old_sample : had_ok stale.ping_samples fallen ≡ true
unfolding had_ok
old_sample = refl

retry_listing-promotes_example :
    let (answer, w') = retry_listing 2_000 1 10 (world_of stale) in
    (answer ≡ ok (retest 2_000 fallen))
    × (y : Listing) × (listing_row 1 (listing_quality_gate_once 1_000 600 w').db ≡ some y)
    × (y.status ≡ ListingStatus.active)
retry_listing-promotes_example =
    retry_listing-promotes 2_000 1 10 1_000 600 (world_of stale) fallen stale_ids fallen_row refl
      refl old_sample refl

abbrev link : Text
link = vless_link (codes "u") (codes "1.2.3.4") 443 (codes "a")

abbrev tail : Text
tail = codes "?type=tcp&security=none&encryption=none#a"

matched : match_at link ≡ some (codes "vless://u@", tail)
unfolding match_at vless_link
matched = refl

-- The host 45.6.7.8 leaves an `e`, the character of octal code 145.
mangled : rewrite_vless_host link (codes "45.6.7.8") 443 ≡ some (codes "e.6.7.8:443" ++ tail)
unfolding rewrite_vless_host vless_link
mangled = refl

host : is_dotted (codes "5.6.7.8") ≡ true
unfolding is_dotted
host = refl

abbrev linked : Config
linked = record (config 1 20) { vless_link = link }

abbrev linked_market : Db
linked_market = record market { configs = linked ∷ [] }

abbrev move : ListingPatchIn
move = record { title = none; iran_host = some (codes "45.6.7.8"); price_per_gb_usd = none }

move_passed : check_edit private_only move ≡ ok move
unfolding check_edit
move_passed = refl

linked_row : first_row (λ x. x.id == 1) linked_market.configs ≡ some linked
unfolding first_row
linked_row = refl

linked_match : match_at linked.vless_link ≡ some (codes "vless://u@", tail)
unfolding match_at vless_link
linked_match = refl

is_moved : host_changed move listing ≡ true
unfolding same_text
is_moved = refl

linked_owned : load_owned_listing 1 10 linked_market ≡ ok listing
unfolding load_owned_listing
linked_owned = refl

patch_listing-breaks_links_example :
    let (answer, w') = patch_listing panel 900 private_only 1 10 move (world_of linked_market) in
    (answer ≡ fail HttpError.server_error)
    ⊎ ((c : Config) × (first_row (λ x. x.id == 1) w'.db.configs ≡ some c)
        × (match_at c.vless_link ≡ none))
patch_listing-breaks_links_example =
    patch_listing-breaks_links panel 900 private_only 1 10 1 b'4' move move (world_of linked_market)
      listing (codes "5.6.7.8") linked (codes "vless://u@", tail) move_passed linked_owned refl refl
      host is_moved linked_row refl linked_match
