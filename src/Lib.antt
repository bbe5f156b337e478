-- ===== src/Lib.antt =====
-- The core of abr-out, a market in which sellers offer outbounds of a 3x-ui panel and buyers pay
-- for the traffic of their configs. A seller's listing is tested through samples of a prober, and
-- goes on and off the market with them; a buyer buys and switches configs under it. A buyer's
-- top-up comes in through a payment callback; the poll job reads the panel's counters, debits
-- buyers and credits sellers; the quota and balance jobs cut off configs; a seller withdraws USDT,
-- which the withdrawal job sends.
--
-- Parts, files and code:
--   Models       app/common/db/models.py: the tables, a list of rows each
--   Notifications app/common/notifications.py: who a notice goes to
--   Health       app/worker/jobs/listing_quality_gate.py: tests, demotion and recovery of listings
--   Prober       app/api/routes/prober.py: what is probed, and the samples that come back
--   Pings        app/worker/jobs/aggregate_ping.py: mean ping and stability
--   Wallet       app/common/db/wallet.py, and the UNIQUE columns that `session.commit` checks: those
--                of the ledger, the usage tables, the withdrawal requests and the listings
--   Outside      the panel's answers (app/common/panel/xui_client.py), messages and other effects
--   Join         the query of configs with their listings, and what a loop over it comes to
--   Billing      prices and `_bill_inbound` of app/worker/jobs/poll_traffic.py; Turns: the panel's
--                counter over many cycles beside the bills
--   Poll         `_process_listing` and `poll_traffic_once` of the same file
--   Quota        `enforce_quotas_once` of app/worker/jobs/enforce_quota.py
--   Enforcement  `enforce_balances_once` of app/worker/jobs/enforce_balance.py
--   Payout       Client: what is called of app/common/payout/bsc.py; Create: `quote_withdrawal` and
--                `create_withdrawal` of app/common/payout/service.py; Process: the job of
--                app/worker/jobs/process_withdrawals.py; Settlement: the two together;
--                Auto: app/worker/jobs/auto_withdraw.py; Transfers: the search of bsc.py for past
--                transfers
--   Payment      what the payment callbacks of app/api/routes/webhook.py make of a payload
--   Webhook      `nowpayments_ipn` and `plisio_ipn` of the same file
--   Configs      app/api/routes/configs.py: purchase, switching, editing and deletion of configs;
--                Http: what a route answers; Vless: the texts that it builds
--   Listings     app/api/routes/listings.py: creation, retry, enabling, disabling,
--                editing and deletion of listings, and the links of their configs
--   Xui          app/common/panel/xui_client.py: logins, requests, snapshots with their fallback
--   Withdrawals  app/api/routes/withdrawals.py: requests, their pages, and the rules for automatic
--                withdrawals
--   Admin        app/api/routes/admin.py: the search for users, blocks, corrections of balances,
--                messages and their answers
--   Auth         app/common/telegram.py and app/api/deps.py: who a request comes from
--   Broadcasts   the broadcasts of app/api/routes/admin.py, and app/worker/jobs/broadcast.py
--   Worker       the jobs as app/worker/main.py and their own calls put them together
--   Tests        the theorems at small tables
--
-- The state is `World`: the tables and the list of effects so far. A job or handler is a function
-- on it, composed as the code composes it: `poll_traffic_once` ends with `enforce_quotas_once`, and
-- `enforce_balances_once` takes the poll as an argument. A function of the code has the same name
-- here, without its leading underscore. A transaction that fails leaves the tables as they were.
--
-- Bounds: amounts are whole numbers of 10^-8 dollars, prices of 10^-4, volumes of 10^-10 GB, and
-- are unbounded; the database's limits on digits are left out. Every loop runs over a list or a
-- text, except that over the digits of a number, whose fuel is one more than the number and so
-- more than it has digits, and the walk over the chain, whose fuel is one more than its head and
-- whose cursor falls in each round. The limits of 20 and 50 rows of the withdrawal job are kept.
--
-- The jobs and routes see the panel through the record `Panel` of its answers; `Xui` models the
-- client behind it, over an arbitrary panel that answers by what it was sent before.
--
-- Parameters: the panel, the payout client, the clock, Python's floating-point share and the
-- 28-digit quotients of the callbacks, commits of other processes between two steps of the poll or
-- two sessions of a request, failures of the database, the ids, uuids and times of new rows, the
-- text of a uuid, the flags of Python's `ipaddress`, Telegram's answers, and PostgreSQL's ILIKE
-- and its order of names, and the libraries that take the sign-in data apart and sign it. They are
-- arbitrary unless a theorem states a hypothesis on them.
--
-- Not modelled: log lines; the Telegram and blockchain clients, which are I/O; the lists of ledger
-- rows, listings and configs, and the view of the hot wallet, which only read; the menus of the
-- bot; the frontend, the migrations and the scripts. A request for a config is one step, so two
-- purchases at once are not interleaved.
pub mod Prelude
pub mod Models
pub mod Outside
pub mod Notifications
pub mod Health
pub mod Prober
pub mod Pings
pub mod Http
pub mod Vless
pub mod Wallet
pub mod Join
pub mod Quota
pub mod Billing
pub mod Poll
pub mod Enforcement
pub mod Payout
pub mod Payment
pub mod Webhook
pub mod Configs
pub mod Listings
pub mod Xui
pub mod Withdrawals
pub mod Admin
pub mod Auth
pub mod Broadcasts
pub mod Worker
pub mod Tests
