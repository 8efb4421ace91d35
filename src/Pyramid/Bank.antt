-- ===== src/Pyramid/Bank.antt =====
-- source/pyramid/abci/minibank: the bank that runs on the blocks. `RangeTree.Search` and protobuf
-- are parameters; keys are Go strings and amounts uint32, the number below 2 ^ 32.
pub mod Db
pub mod MemDb
pub mod StoreLaws
pub mod Transfer
pub mod Locks
pub mod Blocks
pub mod Commit
pub mod Conserve
pub mod Atomic
pub mod Rollback
pub mod LockLaws
mod Tests
