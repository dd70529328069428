-- ===== src/Gateway.antt =====
-- services/gateway: domain types and ports (Domain, Port), the request path (Service), its cache key
-- (Fingerprint), the HTTP API (Http), the policy guardrail (Guardrail) and the other
-- adapters. Routes is what the API registers.
pub mod Domain
pub mod Port
pub mod Guardrail
pub mod Fingerprint
pub mod Service
pub mod Routes
pub mod Http
pub mod Echo
pub mod Adapters
mod Tests
