-- ===== src/Tests/Buying.antt =====
-- Requests of buyer 20 on the sample: a purchase, one that fails at the panel, and a deletion.
use abr_out.Prelude.{ℕ, none, some, false, ◌≡◌, refl, arith}
use abr_out.Prelude.Int.{◌+ℤ◌}
use abr_out.Prelude.Text.{Text, codes}
use abr_out.Prelude.Keyed.{IsKey}
use abr_out.Prelude.Rows.{select, unique_on, exists_row, sum_rows}
use abr_out.Models.{Db, Config}
use abr_out.Outside.{Panel, Reply}
use abr_out.Http.{HttpError, ok, fail}
use abr_out.Wallet.{get_balance}
use abr_out.Vless.{sanitize_name, vless_link}
use abr_out.Configs.{
  ConfigCreateIn, create_config, check_create, existing_count, new_config, provision,
}
use abr_out.Configs.Requests.{ConfigRequest, handle}
use abr_out.Configs.Owner.{others, handle-error, handle-others}
use abr_out.Configs.Cap.{IsCapped, handle-IsCapped}
use abr_out.Configs.Purchase.{IsSold, create_config-IsSold}
use abr_out.Tests.Sample.{market, panel, world_of, listing}

abbrev body : ConfigCreateIn
body = record {
  listing_id = 1;
  name = codes "  my   phone ";
  expiry_days = some 30;
  total_gb_limit = none;
  auto_disable_on_price_increase = false;
}

abbrev hex : ℕ → Text
hex uuid = codes "00ff00ff"

abbrev refusing : Panel
refusing = record panel { add_client = λ inbound uuid email bytes expiry enable. Reply.refused }

-- The name without its white space, and the link.
named : sanitize_name body.name ≡ codes "my phone"
unfolding sanitize_name
named = refl

linked :
    vless_link (codes "u") (codes "1.2.3.4") 443 (codes "a")
    ≡ codes "vless://u@1.2.3.4:443?type=tcp&security=none&encryption=none#a"
unfolding vless_link
linked = refl

abbrev sold : Config
sold = new_config panel hex hex 5 9 77 20 body (codes "my phone") listing

config_ids : IsKey (λ c. c.id) market.configs
unfolding unique_on exists_row
config_ids = refl

refused_run :
    (handle refusing hex hex 5 9 77 20 (ConfigRequest.create body) (world_of market)).0
    ≡ fail HttpError.panel_error
unfolding handle create_config check_create provision get_balance sum_rows ◌+ℤ◌
refused_run = refl

handle-error_example :
    (handle refusing hex hex 5 9 77 20 (ConfigRequest.create body) (world_of market)).1.db ≡ market
handle-error_example =
    handle-error refusing hex hex 5 9 77 20 (ConfigRequest.create body) (world_of market)
      HttpError.panel_error refused_run

abbrev after : Db
after = (handle panel hex hex 5 9 77 20 (ConfigRequest.delete 1) (world_of market)).1.db

handle-others_example :
    (others 20 after ≡ others 20 market)
    × (after ≡ record market { configs = after.configs; listings = after.listings })
handle-others_example =
    handle-others panel hex hex 5 9 77 20 (ConfigRequest.delete 1) (world_of market) config_ids

few_configs : IsCapped market
unfolding existing_count select
few_configs listing buyer = ground arith

handle-IsCapped_example :
    IsCapped (handle panel hex hex 5 9 77 20 (ConfigRequest.create body) (world_of market)).1.db
handle-IsCapped_example =
    handle-IsCapped panel hex hex 5 9 77 20 (ConfigRequest.create body) (world_of market) config_ids
      few_configs

sold_run : (create_config panel hex hex 5 9 77 20 body (world_of market)).0 ≡ ok sold
unfolding create_config check_create provision get_balance sum_rows ◌+ℤ◌ new_config sanitize_name
sold_run = refl

create_config-IsSold_example : IsSold 20 body market sold
create_config-IsSold_example =
    create_config-IsSold panel hex hex 5 9 77 20 body (world_of market) sold sold_run
