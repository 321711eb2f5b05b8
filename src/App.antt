-- ===== src/App.antt =====
-- internal/app: the configuration, the gRPC server's credentials, the interceptors, and the start of
-- the program. The file system, the libraries for YAML and certificates and the sockets are arguments.
pub mod Config
pub mod Credentials
pub mod Served
pub mod Interceptors
pub mod Start
pub mod Main
