-- ===== src/Lib.antt =====
-- UrdCode is a sharded blockchain in Go. Two consensus protocols run in it: Pyramid, a sharded
-- Tendermint (source/pyramid), and Urd, over a HotStuff core (source/core/hotstuff). Both collect
-- votes of the validators of a shard, mark the voters in a bit vector, and join their signatures
-- to one. A bank (abci/minibank) runs on the blocks that are agreed on.
--
-- Parts and files:
-- - Prelude: Boolean tests, lists, integers, byte strings, Go maps as association lists, the results
--   of Go calls (a return or a panic) and int32 words.
-- - Convert: source/utils/convert.go, integers as little-endian bytes.
-- - BitVector: source/utils/bit-vector.go. A `*BitVector` is an Option, `none` is nil. Index is on single
--   bits, Codec on the wire form, Sets on the set operations; Words and Digits on the bits of bytes.
-- - Signer: Verify and VerifyAggregateSignature of source/utils/signer/bls.go.
-- - RangeList: source/utils/RangeList.go, ranges of keys as an ascending list of bounds. Find is the
--   binary search, Add and Delete have AddRange and DeleteRange, Order, Count, Splice, Ranges and Cut the
--   lemmas.
-- - Hotstuff: source/core/hotstuff. Votes is votes.go, Package height_datas.go, State main.go; Quorum
--   has the invariant, Sequence the quorum after any votes, Joins the aggregated vote.
-- - Pyramid/VoteSet: source/pyramid/consensus/constypes/vote_set.go; its children hold the invariant
--   and the theorems.
-- - Pyramid/Votes: source/pyramid/consensus/constypes/vote.go, the proposals, prevotes, precommits
--   and aggregated precommits.
-- - Pyramid/Parts: source/pyramid/types/block-part.go and SplitByteArray of
--   source/utils/compare-bytes.go.
-- - Pyramid/HeightData: source/pyramid/consensus/height_datas.go. The parent has the state and the
--   steps (FinishProposal, FinishPrevote, FinishPrecommit), Add the handlers (AddProposal, AddPart,
--   AddPrevote, AddPrecommit) and the aggregate; both call VoteSet, Parts, Votes and Signer.
-- - Pyramid/Bank: source/pyramid/abci/minibank. Db is the interface GetSetMemDB with its laws, MemDb
--   the buffered store of memdb.go and its two wrappers, Transfer ValidateTransferTx and doTransfer,
--   Locks the locks and the reading of a transaction, Blocks and Commit the execution of blocks;
--   StoreLaws has the laws of the wrappers, Conserve, Atomic and Rollback what a transfer keeps.
-- - Pyramid/Block: source/pyramid/types/block.go and tx.go, the blocks and their hash; Binding has what
--   the hash determines.
-- - Pyramid/Consensus: source/pyramid/consensus/main.go and constypes/cross_shard.go. The parent has the
--   state and the messages, Judge doPropose and doPrevote, Process doPrecommit and the execution of
--   blocks, Create the new height and the proposer's block, Messages doMessage up to the state
--   transition, and Run the transition, which calls the steps and itself, and the entry points. Frames,
--   Moves and Receives say what each operation changes; Run/Reach has the reachable states, and
--   Run/Receive the reading of a message of the network.
-- - Pyramid/Mempool: source/pyramid/mempool/mempool.go.
-- - Urd/Block: source/urd/types block.go, cross_shard_data.go, txs.go and the commit messages. Check has
--   ValidateBasic and Verify, Marks and Certificate the lemmas on the result of a commit certificate, and Hash
--   those on its hash.
-- - Urd/Parts: source/urd/types/block-part.go, on the parts of Pyramid, with a view in place of a height.
-- - Urd/BlockData: source/urd/consensus/block_datas.go, the parts and the block of each view. Replay
--   has the parts that wait for their header, Current the table of the next views.
-- - Urd/Consensus: source/urd/consensus state.go and state_transition.go. The parent has the state and
--   the chain of blocks, CrossShard the messages of other shards, Propose the steps of the leader and of
--   the validators, and Run the transition, Receive and Start, over Hotstuff. Frames, Keeps and Enters say
--   what each operation changes; Run/Reach has the reachable states, Run/Ends the transitions that
--   stop, and Run/Answers the replies to a proposal.
-- - Urd/Mempool: source/urd/mempool/mempool.go.
--
-- State is passed explicitly: a function takes the record and returns the new one beside the result.
-- A call that may panic returns in `Call`; an error of Go is a value of an error type or an Option.
--
-- Bounds and fuel: heights, rounds and indices are integers, for they are compared and stepped by
-- one. The weights of a vote set are int32 words that wrap; its invariant asks that they sum to
-- less than 2 ^ 30. Balances and amounts are uint32, and their sums wrap. Weights of HotStuff are Go
-- ints of a configuration, taken as numbers. SplitByteArray runs on the number of bytes that are
-- left, which is enough where a piece has at least one byte. The binary search of RangeList runs on
-- the number of bounds and one more, which is always enough. The state transition of the consensus
-- calls itself as long as a step is finished, and a shard that can decide alone never stops, so it runs
-- on any fuel that is given, and so does the loop over the stored blocks of a chain; the theorems on
-- reachable states hold for every fuel that was enough.
--
-- The transition of Urd calls itself in the same way. For a leader the fuel counts two
-- calls for each view up to 601, and two more.
--
-- Parameters: the BLS library, protobuf encodings, the Merkle tree (a copied library), the search in
-- the range trees, the store of blocks, and for the consensus the application, the mempools, the clock
-- and the random numbers, as a type of outside worlds with their operations. Each theorem that needs something of one says so in a
-- hypothesis.
--
-- Simplified: the code of a vote of Pyramid, an int8 of which only whether it is OK is asked, is a
-- Bool, in the signed bytes too. Where Go visits a map, the model visits its keys in one order.
--
-- Not modelled: the bank of Urd (source/urd/abci/minibank), the search tree RangeTree, the peer to
-- peer layer, the disk stores, loggers, main programs, and the conversions to and from protobuf. The
-- mutexes, the printing, the counting of bytes and the logging are left out: each operation runs as
-- one step. What a goroutine sends is listed where it is started.
pub mod Prelude
pub mod Convert
pub mod BitVector
pub mod Signer
pub mod RangeList
pub mod Hotstuff
pub mod Pyramid
pub mod Urd
