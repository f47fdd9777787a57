-- ===== src/Gateway.antt =====
-- server/src/gateway: the router of served models.
pub mod ServedModels
pub mod OnDemand
pub mod Clients
pub mod Recorder
pub mod Traces
pub mod Proxy
mod Tests
