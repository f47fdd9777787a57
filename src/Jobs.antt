-- ===== src/Jobs.antt =====
-- server/src/jobs/jobsManager.ts: remote jobs over the agent channel.
pub mod Record
pub mod Manager
pub mod Lifecycle
pub mod Refinement
pub mod Soundness
pub mod Endings
pub mod SingleFlight
pub mod Operations
mod Tests
