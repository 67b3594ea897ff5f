-- ===== src/Wiring.antt =====
-- How the objects that the operator writes for one Site fit together.
pub mod Fallbacks
pub mod Defaults
pub mod Secrets
pub mod Ports
pub mod Cron
pub mod Volumes
pub mod Scheme
