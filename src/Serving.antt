-- ===== src/Serving.antt =====
-- server/src/serving/deployments.ts: the state observed of a deployment and the store of deployments.
pub mod State
pub mod Deployments
pub mod MultiNode
mod Tests
