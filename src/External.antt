-- ===== src/External.antt =====
-- What the program relies on and does not implement: the clock and the random source, Redis, Kafka,
-- PostgreSQL, ClickHouse and HTTP, each as a record of the calls made, over an unknown world; and
-- the routing of net/http and encoding/hex, as their documentation describes them.
pub mod Redis
pub mod Kafka
pub mod Machine
pub mod Postgres
pub mod ClickHouse
pub mod Http
pub mod Mux
pub mod Hex
pub mod Sql
