-- ===== src/Urd/Consensus.antt =====
-- source/urd/consensus/state.go and state_transition.go: the state of a node, its pool of blocks, and
-- the votes that it makes. The application, the mempools, the store and the clock are a type of outside
-- worlds with their operations; codecs and signatures are parameters. Logging and the counters of
-- bytes are left out. What is sent, also by a goroutine, is listed where the sending starts.
pub mod Propose
pub mod CrossShard
pub mod Frames
pub mod Keeps
pub mod Enters
pub mod Run
use urd_code.Prelude.{
  ℕ, suc, ◌-◌, ◌%◌, Bool, true, false, not, Option, none, some, List, [], ◌∷◌, ◌++◌, if◌then◌else◌,
  ◌==◌, ltb, get_elem?, length,
}
use urd_code.Prelude.Int.{ℤ, pos, negsuc, eqb_ℤ, ltb_ℤ, suc_ℤ}
use urd_code.Prelude.Bytes.{Bytes, bytes_eq}
use urd_code.Prelude.Maps.{Map}
use urd_code.Prelude.Calls.{Call, returns, panics, ◌>>=◌}
use urd_code.Hotstuff.Votes.{Vote, Wire, new_vote, set_ok, set_reject, sign_bytes}
use urd_code.Hotstuff.Votes
use urd_code.Hotstuff.State.{State, state_is_quorum, enter_new_view}
use urd_code.Pyramid.Parts.{Part, PartSetHeader}
use urd_code.Urd.Block.{
  Block, CrossShardMessage, deref, hashed, last_hash_of_agg_vote, set_last_hash_of_vote,
}
use urd_code.Urd.Parts.{Codec}
use urd_code.Urd.BlockData.{BlockData, DataError, next}
use urd_code.Urd.BlockData

-- source/urd/consensus/constypes: a proposal of a block.
pub record Proposal : Type 0 where
  pub header : PartSetHeader
  pub proposer_index : ℤ
  pub block_header_hash : Bytes
  pub signature : Bytes

pub data Message : Type 0 where
  part : Part → Message
  proposal : Proposal → Message
  cross_shard_message : CrossShardMessage → Message
  vote : Vote → Message

-- One node of a shard, or all of them.
pub data Receiver : Type 0 where
  node : Bytes → ℤ → Receiver
  shard : Bytes → Receiver

-- `""`, `STEP_VALIDATOR`, `STEP_LEADER_VOTE` and `STEP_LEADER_WAIT`.
pub data Step : Type 0 where
  idle validator_wait leader_vote leader_wait : Step

pub data Error : Type 0 where
  wrong_chain bad_signature no_shard store_failed duplicated not_decoded not_signed not_valid :
      Error
  data_error : DataError → Error
  vote_error : Votes.Error → Error

-- A node's settings, and what it calls that is not modelled. `leaders` has the index of the leader
-- of every shard; `shard_ids` is the list of their names. `none` stands for an error.
pub record Env (W : Type 0) : Type 0 where
  pub enable_pipeline : Bool
  pub signer_index : ℤ
  pub proposer_index : ℤ
  pub chain_id : Bytes
  pub shard_ids : List Bytes
  pub leaders : Map ℤ
  pub max_bytes : ℕ
  pub max_cross_shard_bytes : ℕ
  pub codec : Codec
  pub wire : Wire
  pub proposal_sign_bytes : Proposal → Bytes
  pub sign : Bytes → Option Bytes
  pub aggregate_signatures : List Bytes → Option Bytes
  pub message_bytes : CrossShardMessage → Bytes
  pub message_from_bytes : Bytes → Option CrossShardMessage
  pub execution :
      Option (List Bytes)
      → Option (List Bytes)
      → List (List Bytes)
      → W
      → Call (W × List (List Bytes))
  pub reap : ℕ → W → Option (List Bytes)
  pub reap_cross_shard : ℕ → W → Option (List Bytes)
  pub update : Option (List Bytes) → W → W
  pub update_cross_shard : Option (List Bytes) → W → W
  pub has_special : Bytes → W → Option Bool
  pub set_special : Bytes → Bytes → W → Option W
  pub get_special : Bytes → W → Option Bytes
  pub now : W → W × ℕ

-- The node's verifier is that of its HotStuff state, which keeps it.
pub record ConsensusState (W : Type 0) : Type 0 where
  pub hotstuff : State
  pub step : Step
  pub block_data : BlockData
  pub block_pool : List Block
  pub world : W
  pub sent : List (Receiver × Message)

abbrev pub pool_size : ℕ
pool_size = 7

abbrev pub tail : List Block → List Block
tail [] = []
tail (b ∷ bs) = bs

-- `fetch_block`; it is called with 1 and 2.
abbrev pub fetch_from : List Block → ℕ → Option Block
fetch_from pool n = if ltb (length pool) n then none else get_elem? pool (length pool - n)

-- The list that `append_block` leaves.
abbrev pub append_to : List Block → Block → List Block
append_to pool b = if length pool == pool_size then tail pool ++ b ∷ [] else pool ++ b ∷ []

-- `View%6 == 0`
abbrev pub is_multiple_of_six : ℤ → Bool
is_multiple_of_six (pos n) = n % 6 == 0
is_multiple_of_six (negsuc n) = suc n % 6 == 0

module _ {W : Type 0} where
  abbrev pub fetch_block : ℕ → ConsensusState W → Option Block
  fetch_block n s = fetch_from s.block_pool n

  abbrev pub append_block : Block → ConsensusState W → ConsensusState W
  append_block b s = record s { block_pool = append_to s.block_pool b }

  abbrev pub send : Receiver → Message → ConsensusState W → ConsensusState W
  send to m s = record s { sent = s.sent ++ (to, m) ∷ [] }

  unfoldable pub enter_next_view : ConsensusState W → ConsensusState W
  unfolding enter_new_view BlockData.next
  enter_next_view s = record s {
    block_data = next (suc_ℤ s.hotstuff.view) (pos 0) s.block_data;
    hotstuff = enter_new_view s.hotstuff;
  }

module _ {W : Type 0} (env : Env W) where
  abbrev pub is_proposer : Bool
  is_proposer = eqb_ℤ env.proposer_index env.signer_index

  unfoldable pub next_step : ConsensusState W → Call Step
  unfolding state_is_quorum
  next_step s =
      if not is_proposer
      then returns validator_wait
      else (do q ← state_is_quorum s.hotstuff; returns (if q then leader_wait else leader_vote))

  -- `fetch_block(n).Hash()`. The blocks of the pool have their hash already.
  unfoldable pub hash_of : Option Block → Call Bytes
  unfolding hashed
  hash_of none = returns []
  hash_of (some b) = do c ← hashed env.codec.hashing b; returns c.header.hash

  -- `true` stands for no error. The checks of aggregated signatures are commented out in the code.
  unfoldable pub verify_block : Block → ConsensusState W → Call Bool
  unfolding hash_of bytes_eq
  verify_block b s = if ltb_ℤ b.header.view (pos 5) then returns true else (do
    hash_2 ← hash_of (fetch_block 2 s)
    agg ← deref b.agg_sig_vote
    if not (bytes_eq hash_2 (last_hash_of_agg_vote agg)) then returns false else (do
      hash_1 ← hash_of (fetch_block 1 s)
      if not (bytes_eq hash_1 agg.for_hash) then returns false else (do
        ci ← deref b.ci
        returns (
            if not (length ci.intention_hash == length env.shard_ids)
            then false
            else length b.cc == length env.shard_ids))))

  -- `none` where the signer fails.
  unfoldable pub generate_vote_for_block : Block → Bytes → Bool → Call (Option Vote)
  unfolding hash_of new_vote
  generate_vote_for_block b last_hash ok = do
    hash ← hash_of (some b)
    let fresh = new_vote b.header.view b.header.round hash [] env.signer_index
    let v = set_last_hash_of_vote (if ok then set_ok fresh else set_reject fresh) last_hash
    returns (elim (env.sign (sign_bytes env.wire v)) [
      | none ↦ none
      | some sig ↦ some (record v { sign = sig })
    ])

  -- The block of two views before is executed, and gives the output for every shard.
  unfoldable pub commit_and_execution :
      ConsensusState W → Call (ConsensusState W × List (List Bytes))
  commit_and_execution s = elim (fetch_block 2 s) [
    | none ↦ returns (s, [])
    | some b ↦ do
      (w, op_txs) ← env.execution b.p_txs b.cross_shard_txs b.c_txs s.world
      returns (record s { world = w }, op_txs)
  ]
