-- ===== src/Agent.antt =====
-- agent/src/: the part of a node's agent that decides, and its connection to the server.
pub mod Reconcile
pub mod Daemon
mod Tests
