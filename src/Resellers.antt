-- ===== src/Resellers.antt =====
-- Resellers, services/reseller-service.
pub mod Entity
pub mod World
pub mod Repo
pub mod Accounts
pub mod Keys
pub mod Webhooks
pub mod Http
mod Tests
