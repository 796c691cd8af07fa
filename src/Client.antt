-- ===== src/Client.antt =====
-- incclient: how the client chooses, divides and packs the coins of a transaction.
pub mod Choose
pub mod Pack
pub mod Divide
pub mod Cache
pub mod Consolidate
pub mod Unspent
