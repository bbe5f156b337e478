-- ===== src/Payout.antt =====
-- Withdrawals: app/common/payout/service.py, app/worker/jobs/process_withdrawals.py and
-- app/worker/jobs/auto_withdraw.py, over the interface of the payout
-- client, and the search for transfers in app/common/payout/bsc.py.
pub mod Client
pub mod Create
pub mod Process
pub mod Settlement
pub mod Auto
pub mod Transfers
