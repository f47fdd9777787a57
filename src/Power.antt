-- ===== src/Power.antt =====
-- server/src/power/: the thermal guard, the clock profiles and the clock schedules.
pub mod Thermal
pub mod Profiles
pub mod Schedules
pub mod ClockStore
mod Tests
