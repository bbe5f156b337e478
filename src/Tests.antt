-- ===== src/Tests.antt =====
-- The theorems applied to small tables: a seller, two buyers, one listing.
mod Sample
mod Traffic
mod Enforcing
mod Gate
mod Probing
mod Buying
mod Selling
mod Withdrawals
mod Callbacks
mod Rules
mod Administration
mod Campaigns
mod Panels
mod Entrance
