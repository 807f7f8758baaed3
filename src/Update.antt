-- ===== src/Update.antt =====
-- internal/update, internal/update/helper and internal/agent/updater: the self-update. A text is
-- the list of its code points.
pub mod Version
pub mod Assets
pub mod Files
pub mod Helper
pub mod Run
pub mod Stage
pub mod Agent
