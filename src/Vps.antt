-- ===== src/Vps.antt =====
-- Virtual servers, services/vps-service.
pub mod Entity
pub mod World
pub mod Repo
pub mod Provision
pub mod Instances
pub mod Histories
pub mod Http
mod Tests
