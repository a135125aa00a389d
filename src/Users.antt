-- ===== src/Users.antt =====
-- Accounts, sessions and API keys, services/user-service.
pub mod Entity
pub mod World
pub mod Repo
pub mod Auth
pub mod Profile
pub mod Http
mod Tests
