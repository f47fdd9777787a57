-- ===== src/Alerts.antt =====
-- server/src/alerts and server/src/stores/alertsStore.ts: alert rows, rules and the engine.
pub mod Store
pub mod Rules
pub mod Engine
pub mod Evolution
pub mod OneOpen
pub mod Clearing
pub mod Timing
mod Tests
