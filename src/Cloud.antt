-- ===== src/Cloud.antt =====
-- internal/agent/cloud/cloud.go: what the agent owes the cloud.
pub mod Outbox
pub mod Removals
pub mod Calls
pub mod Flight
pub mod Sync
