-- ===== src/Db.antt =====
-- internal/db: the tables, a transaction, and the statements of sql/queries as functions on the
-- tables, with the constraints of sql/migrations.
pub mod Models
pub mod Session
pub mod Statements
pub mod Scan
pub mod Invoices
pub mod Addresses
pub mod InvoiceLaws
pub mod Ledger
pub mod Users
pub mod CryptoData
pub mod XmrData
pub mod Indices
