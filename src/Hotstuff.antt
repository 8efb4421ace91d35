-- ===== src/Hotstuff.antt =====
-- source/core/hotstuff: the votes, the data of one view and round, and the state machine of views
-- and rounds. The wire form of a vote (generated protobuf code) and the BLS library are parameters.
pub mod Votes
pub mod Package
pub mod State
pub mod Quorum
pub mod Sequence
pub mod Joins
mod Tests
