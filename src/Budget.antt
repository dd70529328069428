-- ===== src/Budget.antt =====
-- services/budget: the decision (Enforcer), its store on Redis (Store), the gRPC service with its
-- alerts (Server) and their producer (Alerter).
pub mod Enforcer
pub mod Store
pub mod Server
pub mod Alerter
pub mod Refinement
mod Tests
