-- ===== src/Sdk.antt =====
-- The client SDK (src/nilscript/sdk): grants, ceilings, the circuit breaker, the resilient
-- transport, and the deduplication of events.
pub mod Grants
pub mod Ceilings
pub mod Idempotency
pub mod Breaker
pub mod Transport
pub mod Events
mod Examples
