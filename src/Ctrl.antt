-- ===== src/Ctrl.antt =====
-- internal/agent/ctrlfilter: the gate in front of the controllers' tunnel hosts. Texts are lists of
-- bytes here.
pub mod Session
pub mod Burn
pub mod Paths
pub mod UserAgent
pub mod Gate
pub mod Hosts
