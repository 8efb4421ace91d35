-- ===== src/Pyramid.antt =====
-- source/pyramid: the sharded Tendermint of the Pyramid system.
pub mod VoteSet
pub mod Bank
pub mod Parts
pub mod Votes
pub mod Block
pub mod Consensus
pub mod Mempool
pub mod HeightData
