-- ===== src/Tests.antt =====
-- The theorems at concrete inputs, and the data that those share: two users, the keys of one of
-- them, two addresses, and a pending invoice.
pub mod Coins
pub mod Data
pub mod Keys
pub mod Daemons
pub mod Requests
pub mod Money
pub mod Lives
pub mod Runs
pub mod Reused
pub mod Startup
mod Addresses
pub mod Links
pub mod Restarts
