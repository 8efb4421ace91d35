-- ===== src/Urd/Consensus/CrossShard.antt =====
-- source/urd/consensus/state.go and state_transition.go: messages between shards, kept by the hash that
-- they extend, and sent when the leader has a quorum.
use urd_code.Prelude.{
  ℕ, suc, true, false, not, Option, none, some, List, [], ◌∷◌, ◌++◌, map, if◌then◌else◌, ltb,
  get_elem?, length,
}
use urd_code.Prelude.Bytes.{Bytes, bytes_eq}
use urd_code.Prelude.Maps.{lookup, insert, contains}
use urd_code.Prelude.Calls.{Call, returns, ◌>>=◌}
use urd_code.Hotstuff.Votes.{AggregatedVote}
use urd_code.Hotstuff.State.{state_get_maj23}
use urd_code.Urd.Block.{
  Block, CrossShardMessage, deref, get_last_hash, right_hash, proof_of_index, output_txs_proof_of,
}
use urd_code.Urd.Consensus.{
  Env, ConsensusState, Error, no_shard, store_failed, duplicated, not_decoded, vote_error,
  cross_shard_message, node, fetch_block, send,
}

-- `fmt.Sprintf("%s:%s", chain, hash)`
abbrev pub message_key : Bytes → Bytes → Bytes
message_key chain hash = chain ++ 58 ∷ hash

module _ {W : Type 0} where
  -- `extendHash`: the message of a shard is taken, and the next one has to extend its hash.
  unfoldable pub extend_hash : CrossShardMessage → ConsensusState W → Call (ConsensusState W)
  unfolding insert
  extend_hash csm s = do
    v ← deref csm.agg_vote
    returns (record s {
      block_data = record (s.block_data) {
        finished = insert csm.source_chain csm s.block_data.finished;
        last_hash = insert csm.source_chain v.for_hash s.block_data.last_hash;
      };
    })

module _ {W : Type 0} (env : Env W) where
  abbrev Reply : Type 0
  Reply = Call (ConsensusState W × Option Error)

  -- A message that is kept and extends the last hash of its shard.
  abbrev pub take_message : CrossShardMessage → Bytes → ConsensusState W → Reply
  take_message csm last s =
      if contains csm.source_chain s.block_data.finished
      then returns (s, none)
      else elim (lookup csm.source_chain s.block_data.last_hash) [
        | none ↦
            if bytes_eq [] last
            then (do s' ← extend_hash csm s; returns (s', none))
            else returns (s, none)
        | some hash ↦
            if bytes_eq hash last
            then (do s' ← extend_hash csm s; returns (s', none))
            else returns (s, none)
      ]

  -- The branch of `doMessage` for a message of another shard.
  unfoldable pub add_message : CrossShardMessage → ConsensusState W → Reply
  unfolding lookup extend_hash bytes_eq
  add_message csm s = do
    last ← get_last_hash csm
    let key = message_key csm.source_chain last
    if not (contains csm.source_chain env.leaders)
        then returns (s, some no_shard)
        else elim (env.has_special key s.world) [
          | none ↦ returns (s, some store_failed)
          | some true ↦ returns (s, some duplicated)
          | some false ↦ elim (env.set_special key (env.message_bytes csm) s.world) [
            | none ↦ returns (s, some store_failed)
            | some w ↦ take_message csm last (record s { world = w })
          ]
        ]

  -- What the store has for a key: nothing, or a message that is taken.
  abbrev pub redo_stored : Option Bytes → ConsensusState W → Reply
  redo_stored none s = returns (s, some store_failed)
  redo_stored (some []) s = returns (s, none)
  redo_stored (some (b ∷ bz)) s = elim (env.message_from_bytes (b ∷ bz)) [
    | none ↦ returns (s, some not_decoded)
    | some csm ↦ do s' ← extend_hash csm s; returns (s', none)
  ]

  abbrev pub hash_at : Bytes → ConsensusState W → Bytes
  hash_at chain s = elim (lookup chain s.block_data.last_hash) [ none ↦ [] | some hash ↦ hash ]

  -- `redo_CrossShardMessage`, for the keys of the map: the value at a key is read when it is visited.
  unfoldable pub redo : List Bytes → ConsensusState W → Reply
  unfolding lookup extend_hash bytes_eq
  redo [] s = returns (s, none)
  redo (chain ∷ chains) s = if bytes_eq chain env.chain_id then redo chains s else (do
    (s', e) ← redo_stored (env.get_special (message_key chain (hash_at chain s)) s.world) s
    elim e [ some err ↦ returns (s', some err) | none ↦ redo chains s' ])

  -- The parts of a message that come from the block of two views before; in the first views none.
  unfoldable pub model_message : AggregatedVote → Option Block → Call CrossShardMessage
  unfolding right_hash proof_of_index
  model_message v none = returns (record {
    source_chain = env.chain_id;
    agg_vote = some v;
    intention_brief = [];
    proof_of_intention = none;
    op_txs = [];
    output_txs_proof = none;
  })
  model_message v (some b) = do
    ci ← deref b.ci
    proof ← proof_of_index env.codec.hashing b 4
    right ← right_hash env.codec.hashing ci
    returns (record {
      source_chain = env.chain_id;
      agg_vote = some v;
      intention_brief = ci.intention_hash;
      proof_of_intention = some (record { intention_hash_proof = proof; right_hash = right });
      op_txs = [];
      output_txs_proof = none;
    })

  -- The message for the shard at an index.
  unfoldable pub message_for :
      CrossShardMessage → Option Block → ℕ → ConsensusState W → Call CrossShardMessage
  unfolding output_txs_proof_of
  message_for model none i s = returns model
  message_for model (some b) i s = do
    txs ← deref (get_elem? s.block_data.j_2_cross_shard_txs i)
    proof ← output_txs_proof_of env.codec.hashing b i
    returns (record model { op_txs = txs; output_txs_proof = some proof })

  -- The shard takes its own message, and sends the others to the leaders.
  abbrev pub deliver : Bytes → CrossShardMessage → ConsensusState W → Call (ConsensusState W)
  deliver id csm s = if bytes_eq id env.chain_id then extend_hash csm s else (do
    leader ← deref (lookup id env.leaders)
    returns (send (node id leader) (cross_shard_message csm) s))

  -- The goroutines of `broadcastFunc`, one after the other: each touches something else.
  unfoldable pub broadcast :
      CrossShardMessage → Option Block → ℕ → List Bytes → ConsensusState W → Call (ConsensusState W)
  unfolding message_for extend_hash lookup bytes_eq
  broadcast model b i [] s = returns s
  broadcast model b i (id ∷ ids) s = do
    csm ← message_for model b i s
    s' ← deliver id csm s
    broadcast model b (suc i) ids s'

  -- With fewer than 4 blocks the message has no proofs.
  abbrev pub proving_block : ConsensusState W → Call (Option Block)
  proving_block s =
      if ltb (length s.block_pool) 4
      then returns none
      else (do b ← deref (fetch_block 2 s); returns (some b))

  abbrev pub communicate_with : AggregatedVote → ConsensusState W → Reply
  communicate_with v s = do
    b ← proving_block s
    model ← model_message v b
    s' ← broadcast model b 0 env.shard_ids s
    returns (s', none)

  -- `CrossShardCommunicate`, once the messages in the store are taken.
  abbrev pub communicate_quorum : ConsensusState W → Reply
  communicate_quorum s = do
    (hs, agg, e) ← state_get_maj23 env.aggregate_signatures s.hotstuff
    let s' = record s { hotstuff = hs }
    elim e [
      | some err ↦ returns (s', some (vote_error err))
      | none ↦ (do v ← deref agg; communicate_with v s')
    ]

  unfoldable pub communicate : ConsensusState W → Reply
  unfolding redo state_get_maj23 model_message broadcast
  communicate s = do
    (s', e) ← redo (map (λ (c : Bytes × Bytes). c.0) s.block_data.last_hash) s
    elim e [ some err ↦ returns (s', some err) | none ↦ communicate_quorum s' ]
