-- ===== src/Tests/Campaigns.antt =====
-- A broadcast to the buyers of the sample, of whom the second has blocked the bot.
use abr_out.Prelude.{◌≤◌, [], ◌∷◌, none, some, not, ◌==◌, ◌≡◌, refl, arith}
use abr_out.Prelude.Text.{codes}
use abr_out.Prelude.Rows.{select, first_row}
use abr_out.Prelude.Pages.{order_by, insert_row}
use abr_out.Models.{Db, Audience, AudienceKind, Broadcast}
use abr_out.Outside.{Telegram}
use abr_out.Http.{ok}
use abr_out.Broadcasts.{
  new_broadcast, create_broadcast, get_broadcast, broadcast_tick, broadcast_preview, recipients,
  next_broadcast,
}
use abr_out.Broadcasts.Delivered.{outcome, taken, refused, broadcast_tick-refines}
use abr_out.Broadcasts.Drained.{open_count, ticks, AddsUp, ticks-drain, create_broadcast-AddsUp}
use abr_out.Tests.Sample.{market, world_of}

abbrev telegram : Telegram
telegram user text = not (user == 21)

abbrev buyers : Audience
buyers = record { kind = AudienceKind.buyers; date_from = none; date_to = none }

abbrev news : Broadcast
news = new_broadcast 1 5 9 (codes "news") buyers market

abbrev queue : Db
queue = record market { broadcasts = news ∷ [] }

is_next : next_broadcast queue ≡ some news
unfolding next_broadcast order_by insert_row select first_row new_broadcast
is_next = refl

broadcast_tick-refines_example :
    let us = recipients queue news in
    broadcast_tick telegram 8 (world_of queue)
    ≡ outcome 8 news.id news.text us
        (taken telegram news.text us)
        (refused telegram news.text us)
        (world_of queue)
broadcast_tick-refines_example = broadcast_tick-refines telegram 8 news (world_of queue) is_next

one_open : open_count queue.broadcasts ≤ 1
unfolding open_count select new_broadcast
one_open = omega arith

ticks-drain_example : open_count (ticks telegram (8 ∷ []) (world_of queue)).db.broadcasts ≡ 0
ticks-drain_example = ticks-drain telegram (8 ∷ []) (world_of queue) one_open

none_open : open_count market.broadcasts ≡ 0
unfolding open_count select
none_open = refl

creates : create_broadcast 1 5 9 (codes "news") buyers market ≡ ok (news, queue)
unfolding create_broadcast
creates = refl

create_broadcast-AddsUp_example :
    (b : Broadcast) × (get_broadcast 1
        (broadcast_tick telegram 8 (record (world_of market) { db = queue })).db
      ≡ ok b)
    × AddsUp (broadcast_preview buyers market) b
create_broadcast-AddsUp_example =
    create_broadcast-AddsUp telegram 1 5 8 9 (codes "news") buyers (world_of market) none_open
      creates
