-- ===== src/Pyramid/Consensus/Process.antt =====
-- source/pyramid/consensus/main.go: `doPrecommit`, which executes the block that is decided, and what
-- it clears. The counts that are only logged are left out, and of a response the receipts are kept.
use urd_code.Prelude.{
  Bool, true, false, Option, none, some, List, [], ◌∷◌, if◌then◌else◌, length, ◌&&◌,
}
use urd_code.Prelude.Int.{pos, negsuc, eqb_ℤ}
use urd_code.Prelude.Bytes.{Bytes}
use urd_code.Prelude.Maps.{erase}
use urd_code.Prelude.Calls.{Call, returns, panics, ◌>>=◌}
use urd_code.Pyramid.VoteSet.{read_elem}
use urd_code.Pyramid.Votes.{PrecommitAggregated}
use urd_code.Pyramid.HeightData.Add.{generate_aggregate_precommit_signature}
use urd_code.Pyramid.Block.{
  Block, block_hash, type_inner_shard, type_cross_shard, type_b_commit, type_i_commit,
  type_i_accept,
}
use urd_code.Pyramid.Consensus.{
  Env, ConsensusState, Message, cross_shard_block, message_accept, message_commit, is_i,
  is_proposer, block_codec, send_to, send_to_related_shards, next,
}

abbrev is_ok_of : Bool → Option PrecommitAggregated → Bool
is_ok_of isok none = isok
is_ok_of isok (some sig) = sig.is_ok

module _ {W : Type 0} (env : Env W) where
  unfoldable pub update_i_state : Block → Bytes → ConsensusState W → ConsensusState W
  unfolding erase
  update_i_state b hash s =
      let t = b.header.block_type in
      if eqb_ℤ t type_inner_shard
      then record s { world = env.update b.body_txs s.world }
      else if eqb_ℤ t type_i_accept
      then record s { cross_shard_block_pool = erase hash s.cross_shard_block_pool }
      else if eqb_ℤ t type_i_commit
      then record s { commit_pool = erase hash s.commit_pool; committed = hash ∷ s.committed }
      else s

  unfoldable pub update_i_states : Block → List Bytes → ConsensusState W → ConsensusState W
  unfolding update_i_state
  update_i_states b [] s = s
  update_i_states b (hash ∷ hashes) s = update_i_states b hashes (update_i_state b hash s)

  -- A block that is missing in the store, or cannot be read, panics.
  unfoldable pub commit_pending : Bytes → ConsensusState W → Call (ConsensusState W)
  commit_pending hash s = do
    bz ← read_elem (env.block_by_hash s.world hash)
    b ← env.from_bytes bz >>= read_elem
    returns (record s { world = env.update_cross_shard b.cross_shard_body.cross_shard_txs s.world })

  abbrev clear_pending : ConsensusState W → ConsensusState W
  clear_pending s = record s {
    ma_count = negsuc 0;
    ma_pool = none;
    pending_cross_shard_block_hash = [];
  }

  unfoldable pub update_b_state : Block → Bytes → Bool → ConsensusState W → Call (ConsensusState W)
  unfolding commit_pending
  update_b_state b hash if_commit s =
      let t = b.header.block_type in
      if eqb_ℤ t type_inner_shard
      then returns (record s { world = env.update b.body_txs s.world })
      else if eqb_ℤ t type_cross_shard
      then returns (record s {
        ma_count = pos (length env.related_shards);
        ma_pool = some [];
        pending_cross_shard_block_hash = hash;
        pending_block_size = length b.cross_shard_body.cross_shard_txs;
      })
      else if eqb_ℤ t type_b_commit
      then (do
        s' ← if if_commit then commit_pending hash s else returns s
        returns (clear_pending s'))
      else returns s

  abbrev aggregate : ConsensusState W → Call PrecommitAggregated
  aggregate s =
      generate_aggregate_precommit_signature (block_codec env) env.aggregate_signatures
        s.height_datas

  -- The hashes and the codes of the commits in the transactions; one that cannot be read panics.
  unfoldable pub read_commits : List Bytes → Call (List Bytes × List Bool)
  read_commits [] = returns ([], [])
  read_commits (tx ∷ txs) = do
    mc ← read_elem (env.decode_commit tx)
    (hashes, commits) ← read_commits txs
    returns (mc.b_block_hash ∷ hashes, mc.collective_signatures.is_ok ∷ commits)

  -- The goroutine that sends the block, which a proposer starts.
  unfoldable pub deliver :
      Bool → Block → Option PrecommitAggregated → ConsensusState W → Call (ConsensusState W)
  unfolding is_proposer
  deliver in_round b none s = returns s
  deliver in_round b (some sig) s = do
    mine ← is_proposer env s
    returns (
        if mine && in_round
        then send_to_related_shards env
            (cross_shard_block (record { block = b; collective_signatures = sig })) s
        else s)

  unfoldable pub process_accept :
      Block
      → Bytes
      → Option PrecommitAggregated
      → Bool
      → ConsensusState W
      → Call (ConsensusState W × List Bytes)
  unfolding is_proposer update_i_state block_hash
  process_accept b chain sig isok s = do
    tx ← read_elem (elim b.body_txs as (λ _. Option Bytes) [ [] ↦ none | tx ∷ _ ↦ some tx ])
    csb ← read_elem (env.decode_cross_shard_block tx)
    (w, receipts) ← env.accept_cross_shard csb.block chain (is_ok_of isok sig) s.world
    mine ← is_proposer env s
    let s' : ConsensusState W = record s { world = w }
    let hash = (block_hash env.hashing csb.block).1
    returns (elim sig [
      | none ↦ (s', receipts)
      | some agg ↦
          let ma = message_accept (record { b_block_hash = hash; collective_signatures = agg }) in
          let s'' = if mine then send_to csb.block.header.chain_id ma s' else s' in
          (update_i_state b hash s'', receipts)
    ])

  unfoldable pub process_commit :
      Block → Bytes → Bool → ConsensusState W → Call (ConsensusState W × List Bytes)
  unfolding read_commits update_i_states
  process_commit b chain in_round s = do
    (hashes, commits) ← read_commits b.body_txs
    (w, receipts) ← env.accept_commit_shard hashes commits chain s.world
    let s' : ConsensusState W = record s { world = w }
    returns (if in_round then update_i_states b hashes s' else s', receipts)

  -- `GenerateAggregatePrecommitSignature` in a consensus round only.
  abbrev pub signatures : Bool → ConsensusState W → Call (Option PrecommitAggregated)
  signatures in_round s =
      if in_round then (do agg ← aggregate s; returns (some agg)) else returns none

  -- The switch on the type of the block.
  unfoldable pub execute_i_block :
      Block
      → Bytes
      → Bool
      → Bool
      → Option PrecommitAggregated
      → ConsensusState W
      → Call (ConsensusState W × List Bytes)
  unfolding process_accept process_commit update_i_state
  execute_i_block b chain in_round isok sig s =
      let t = b.header.block_type in
      if eqb_ℤ t type_inner_shard
      then (do
        (w, receipts) ← env.execution_inner_shard b s.world
        let s' : ConsensusState W = record s { world = w }
        let hash = (block_hash env.hashing b).1
        returns (if in_round then update_i_state b hash s' else s', receipts))
      else if eqb_ℤ t type_i_accept
      then process_accept b chain sig isok s
      else if eqb_ℤ t type_i_commit
      then process_commit b chain in_round s
      else panics

  unfoldable pub process_i_block :
      Block → Bytes → Bool → Bool → ConsensusState W → Call (ConsensusState W × List Bytes)
  unfolding deliver execute_i_block
  process_i_block b chain in_round isok s0 = do
    sig ← signatures in_round s0
    s ← deliver in_round b sig s0
    execute_i_block b chain in_round isok sig s

  abbrev send_if : Bool → Message → ConsensusState W → ConsensusState W
  send_if mine m s = if mine then send_to_related_shards env m s else s

  -- `processBBlock` is only called in a consensus round.
  unfoldable pub process_b_block : Block → ConsensusState W → Call (ConsensusState W × List Bytes)
  unfolding is_proposer update_b_state block_hash
  process_b_block b s =
      let t = b.header.block_type in
      let hash = (block_hash env.hashing b).1 in
      if eqb_ℤ t type_inner_shard
      then (do
        (w, receipts) ← env.execution_inner_shard b s.world
        s' ← update_b_state b hash false (record s { world = w })
        returns (s', receipts))
      else if eqb_ℤ t type_cross_shard
      then (do
        agg ← aggregate s
        mine ← is_proposer env s
        let csb = cross_shard_block (record { block = b; collective_signatures = agg })
        s' ← update_b_state b hash false (send_if mine csb s)
        returns (s', env.ok_receipt ∷ []))
      else if eqb_ℤ t type_b_commit
      then (do
        agg ← aggregate s
        mine ← is_proposer env s
        let pending = s.pending_cross_shard_block_hash
        let mc = message_commit (record { b_block_hash = pending; collective_signatures = agg })
        s' ← update_b_state b pending true (send_if mine mc s)
        returns (record s' { pending_block_size = 0 }, env.ok_receipt ∷ []))
      else panics

  -- The block is hashed again for the chain's last hash, and stored.
  unfoldable pub after_execution : Block → ConsensusState W → List Bytes → ConsensusState W
  unfolding next block_hash
  after_execution b s receipts =
      let (b', hash) = block_hash env.hashing b in
      let (w, root) = env.commit s.world in
      next (record s {
        height_datas = record (s.height_datas) { block = some b' };
        last_receipt_root = (env.proofs receipts).0;
        last_block_hash = hash;
        last_state_root = root;
        last_block_time = b.header.time;
        world = env.set_block b.header.height b.header.chain_id b' w;
      })

  abbrev pub process : Block → ConsensusState W → Call (ConsensusState W × List Bytes)
  process b s =
      if is_i env
      then process_i_block b s.height_datas.my_chain_id true false s
      else process_b_block b s

  unfoldable pub do_precommit : ConsensusState W → Call (ConsensusState W)
  unfolding process_i_block process_b_block after_execution
  do_precommit s = do
    b ← read_elem s.height_datas.block
    (s', receipts) ← process b s
    returns (after_execution b s' receipts)
