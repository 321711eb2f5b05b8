-- ===== src/Handler.antt =====
-- internal/handler/v1: the gRPC services.
pub mod Users
pub mod Invoices
pub mod Registered
pub mod Requests
pub mod Keys
pub mod Stream
