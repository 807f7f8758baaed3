-- ===== src/Wire.antt =====
-- wire/wire.go: the payloads that the components exchange with the apps and the cloud.
pub mod Alerts
pub mod Status
pub mod Updates
