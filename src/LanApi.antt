-- ===== src/LanApi.antt =====
-- internal/agent/lanapi/lanapi.go: the agent's HTTP API, by what each handler reads, what it writes
-- in its update of the store, and what it answers. A handler's snapshot is the document that it
-- read at its start; the store is as others left it at the time of its update.
pub mod Auth
pub mod Pairing
pub mod Devices
pub mod Settings
pub mod Controllers
