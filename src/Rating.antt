-- ===== src/Rating.antt =====
-- services/rating: the price catalog in PostgreSQL (Catalog) and the gRPC service (Server).
pub mod Catalog
pub mod Server
mod Tests
