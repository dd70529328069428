-- ===== src/Identity.antt =====
-- services/identity: virtual API keys in PostgreSQL (Store) and the gRPC service (Server).
pub mod Store
pub mod Server
mod Tests
