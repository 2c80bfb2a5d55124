-- ===== src/Saga/Ties.antt =====
-- What the four services hold of one order, under every interleaving of their transactions.
pub mod Tables
pub mod World
pub mod Plans
pub mod Orders
pub mod Replies
pub mod Kitchen
pub mod Payments
pub mod Dispatch
pub mod Interleaving
pub mod Charges
