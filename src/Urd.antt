-- ===== src/Urd.antt =====
-- source/urd: the shards that vote with HotStuff and answer for each other's transactions.
pub mod Block
pub mod Parts
pub mod BlockData
pub mod Consensus
pub mod Mempool
mod Tests
