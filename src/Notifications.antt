-- ===== src/Notifications.antt =====
-- app/common/notifications.py: who a notice goes to. The sending is an effect.
use abr_out.Prelude.{ℕ, List, [], ◌∷◌, Bool, not, ◌||◌, ◌&&◌, ◌==◌, map}
use abr_out.Prelude.Rows.{select, distinct}
use abr_out.Models.{Db, Config, config_active, config_deleted}
use abr_out.Outside.{World, Effect, Message, emit}

abbrev is_addressed : ℕ → Bool → Bool → Config → Bool
is_addressed listing_id only_with_price_flag only_active c =
    c.listing_id == listing_id
    && not (config_deleted c.status)
    && (not only_with_price_flag || c.auto_disable_on_price_increase)
    && (not only_active || config_active c.status)

-- `_distinct_buyer_ids`
unfoldable pub distinct_buyer_ids : Db → ℕ → Bool → Bool → List ℕ
unfolding select distinct
distinct_buyer_ids db listing_id only_with_price_flag only_active = distinct (
    map (λ c. c.buyer_user_id)
      (select (is_addressed listing_id only_with_price_flag only_active) db.configs))

-- `_send_to_users`
unfoldable pub send_to_users : List ℕ → Message → World → World
send_to_users [] text w = w
send_to_users (u ∷ us) text w = send_to_users us text (emit (Effect.message u text) w)

-- `notify_listing_buyers`
unfoldable pub notify_listing_buyers : ℕ → Message → Bool → Bool → World → World
unfolding distinct_buyer_ids send_to_users
notify_listing_buyers listing_id text only_with_price_flag only_active w =
    send_to_users (distinct_buyer_ids w.db listing_id only_with_price_flag only_active) text w
