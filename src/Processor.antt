-- ===== src/Processor.antt =====
-- internal/processor: the payment processor.
pub mod Tokens
pub mod Verify
pub mod Payments
pub mod Monero
pub mod Scanned
pub mod Address
pub mod Create
pub mod State
pub mod Confirm
pub mod Lifecycle
pub mod Settled
pub mod Confirmed
pub mod Mempool
pub mod Paid
pub mod Revived
mod Keeps
pub mod Ledger
pub mod Manager
pub mod SetUp
pub mod Load
pub mod Configured
pub mod Routing
pub mod Watching
pub mod Restart
pub mod Dispatch
pub mod Steps
pub mod Cells
pub mod Owned
pub mod Linked
pub mod Told
pub mod Stale
pub mod Again
pub mod Subscribers
pub mod Lost
pub mod Resume
pub mod Pipeline
pub mod Live
pub mod Created
pub mod HdAddress
pub mod Derived
