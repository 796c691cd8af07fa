-- ===== src/Examples.antt =====
-- Concrete runs of the theorems.
pub mod Toy
mod Bytes
mod Accounts
mod Choosing
mod Coins
mod CoinsV1
mod Lists
mod Payments
mod Cache
mod Wallets
mod Rings
mod Proofs
mod Ranges
mod Secrets
mod Spending
