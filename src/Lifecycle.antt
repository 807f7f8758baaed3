-- ===== src/Lifecycle.antt =====
-- internal/agent/lifecycle/lifecycle.go: the watcher that asks the control plane whether the relay is
-- in good standing, and parks the tunnel, resumes it or drops the household.
pub mod Watcher
pub mod Answer
pub mod Steps
pub mod Pacing
pub mod Binding
