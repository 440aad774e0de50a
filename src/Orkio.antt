-- ===== src/Orkio.antt =====
-- src/glip/integrations/orkio: the contract of a capability call, the classification of its
-- failures, the circuit breaker and the bounded retries.
pub mod Json
pub mod Request
pub mod Response
pub mod Client
pub mod Cases
pub mod Bounded
pub mod Breaker
pub mod Lease
pub mod Accepted
pub mod Contract
pub mod Examples
