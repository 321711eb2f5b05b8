-- ===== src/Listener.antt =====
-- internal/listener: what each coin's daemon client reports, and the executor that polls a client
-- and hands new blocks and new transactions to its subscribers.
pub mod Network
pub mod Tx
pub mod Client
pub mod Executor
pub mod Blocks
pub mod Pool
pub mod Confirmations
