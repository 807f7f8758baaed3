-- ===== src/Examples.antt =====
-- The theorems at concrete inputs: a relay with one pool, its rules, its devices and its store.
pub mod Data
pub mod Alerting
pub mod Seeding
pub mod Keeping
pub mod Storing
pub mod Watching
pub mod Household
pub mod Updating
pub mod Delivering
pub mod Choosing
pub mod Gating
pub mod Polling
