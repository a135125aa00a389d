-- ===== src/Billing.antt =====
-- billing-service: the wallet, the ledger of transactions, deposits and prices.
pub mod Entity
pub mod Action
pub mod Repo
pub mod Wallet
pub mod Pricing
pub mod Payments
pub mod Http
mod Tests
