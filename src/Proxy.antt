-- ===== src/Proxy.antt =====
-- Orders for proxies, services/proxy-service.
pub mod Entity
pub mod World
pub mod Repo
pub mod Orders
pub mod Lifecycle
pub mod Expiry
pub mod Http
mod Tests
