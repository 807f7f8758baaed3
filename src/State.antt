-- ===== src/State.antt =====
-- internal/agent/state: the agent's persistent document, and the operations on it that run inside
-- an update.
pub mod Document
pub mod Removals
pub mod Household
pub mod Controllers
pub mod Roles
pub mod Migrate
