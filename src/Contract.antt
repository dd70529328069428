-- ===== src/Contract.antt =====
-- The gRPC contracts: the messages of proto/gen and their generated getters, which answer the zero
-- value on a nil message. Encoding, and the fields that the protobuf runtime keeps, are not modelled.
pub mod Budget
pub mod Identity
pub mod Rating
