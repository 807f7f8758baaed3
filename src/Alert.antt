-- ===== src/Alert.antt =====
-- internal/agent/alert: the alert engine. `Step`, `Control`, `Evaluate`, `Stale`, `Seed` and
-- `Rules` hold the engine's functions; the modules below them what they keep and promise.
pub mod Engine
pub mod Step
pub mod Control
pub mod Evaluate
pub mod Stale
pub mod Seed
pub mod Rules
