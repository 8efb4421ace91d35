-- ===== src/Pyramid/Consensus/Create.antt =====
-- source/pyramid/consensus/main.go: the new height and round, and the block that a proposer makes.
use urd_code.Prelude.{
  ℕ, ◌+◌, Bool, ◌&&◌, Option, none, some, List, [], ◌∷◌, map, if◌then◌else◌, ltb, length, get_elem?,
}
use urd_code.Prelude.Int.{ℤ, pos, negsuc, eqb_ℤ}
use urd_code.Prelude.Bytes.{Bytes}
use urd_code.Prelude.Maps.{Map}
use urd_code.Prelude.Calls.{Call, returns, ◌>>=◌}
use urd_code.Pyramid.VoteSet.{read_elem}
use urd_code.Pyramid.Parts.{Part, part_set_from_block}
use urd_code.Pyramid.Votes.{Proposal, new_proposal, proposal_sign_bytes}
use urd_code.Pyramid.HeightData.{HeightData, next_height}
use urd_code.Pyramid.Block.{
  Block, Header, new_block, block_hash, type_inner_shard, type_cross_shard, type_b_commit,
  type_i_commit, type_i_accept,
}
use urd_code.Pyramid.Consensus.{
  Env, ConsensusState, Message, part, proposal, message_ok, step_propose, step_commit, is_i, is_b,
  is_proposer, block_codec, send_internal, send_to_related_shards, next, relayed,
}

abbrev values {ℓ} : {A : Type ℓ} → Map A → List A
values m = map (λ (entry : Bytes × _). entry.1) m

abbrev set_type : ℤ → Block → Block
set_type t b = record b { header = record (b.header) { block_type = t } }

module _ {W : Type 0} (env : Env W) where
  -- `new(types.Block)` of a type, with transactions.
  abbrev with_txs : ℤ → List Bytes → Block
  with_txs t txs = record (set_type t new_block) { body_txs = txs }

  -- An accept of a random block of the pool, else a commit of all that are pooled, else what the
  -- mempool has.
  unfoldable pub create_i_block_txs : ConsensusState W → Call (ConsensusState W × Block)
  create_i_block_txs s =
      if ltb 0 (length s.cross_shard_block_pool)
      then (do
        let (w, i) = env.intn s.world (length s.cross_shard_block_pool)
        csb ← read_elem (get_elem? (values s.cross_shard_block_pool) i)
        returns (
          record s { world = w },
          with_txs type_i_accept (env.encode_cross_shard_block csb ∷ []),
        ))
      else if ltb 0 (length s.commit_pool)
      then returns (s, with_txs type_i_commit (map env.encode_commit (values s.commit_pool)))
      else returns (s, with_txs type_inner_shard (env.reap s.world env.max_block_tx_num))

  unfoldable pub create_b_block_txs : ConsensusState W → Block
  create_b_block_txs s =
      let cross = env.reap_cross_shard s.world env.max_block_tx_num in
      let accepts = elim s.ma_pool as (λ _. List _) [ none ↦ [] | some pool ↦ values pool ] in
      let mas =
        env.encode_accept_set
          (record { accepts = accepts; block_hash = s.pending_cross_shard_block_hash }) in
      if eqb_ℤ s.ma_count (negsuc 0) && ltb 0 (length cross)
      then env.fill_data
          (record (set_type type_cross_shard new_block) {
            cross_shard_body = record { cross_shard_txs = cross; cross_shard_datas = [] };
          })
          s.world
      else if eqb_ℤ s.ma_count (pos 0)
      then with_txs type_b_commit (mas ∷ [])
      else with_txs type_inner_shard (env.reap s.world env.max_block_tx_num)

  abbrev make_header : ConsensusState W → ℤ → ℕ → Header
  make_header s block_type time = record {
    block_type = block_type;
    hash_pointer = s.last_block_hash;
    chain_id = s.height_datas.my_chain_id;
    height = pos s.height;
    time = time;
    body_root = [];
    cross_shard_body_root = [];
    state_root = s.last_state_root;
    receipt_root = s.last_receipt_root;
    relation_root = [];
  }

  -- `for _, part := range part_set.Parts`
  unfoldable pub send_parts : List (Option Part) → ConsensusState W → ConsensusState W
  send_parts [] s = s
  send_parts (none ∷ parts) s = send_parts parts s
  send_parts (some p ∷ parts) s = send_parts parts (send_internal (part p) s)

  -- Signs the proposal of a block, keeps block, parts and proposal, and sends the latter two.
  unfoldable pub broadcast_block : ConsensusState W → Block → Call (ConsensusState W)
  unfolding part_set_from_block send_parts new_proposal proposal_sign_bytes block_hash
  broadcast_block s b = do
    parts ← part_set_from_block (block_codec env) b env.max_part_size (pos s.round)
    let p0 = new_proposal parts.header (pos env.signer_index) parts.block_header_hash
    sig ← read_elem (env.sign (proposal_sign_bytes env.wire p0))
    let p : Proposal = record p0 { signature = sig }
    let hd : HeightData Block = record (s.height_datas) {
      block = some (block_hash env.hashing b).0;
      part_set = some parts;
      proposal = some p;
    }
    returns (send_parts parts.parts (send_internal (proposal p) (record s { height_datas = hd })))

  abbrev pub make_block : ConsensusState W → Call (ConsensusState W × Block)
  make_block s = if is_b env then returns (s, create_b_block_txs s) else create_i_block_txs s

  -- After the two readings of the clock.
  abbrev pub clocked : ConsensusState W → ConsensusState W
  clocked s = record s { world = (env.now (env.now s.world).0).0 }

  -- The block with its header, whose time is not before the interval.
  abbrev pub headed : ConsensusState W → Block → Block
  headed s b =
      let t = (env.now (env.now s.world).0).1 in
      let earliest = s.last_block_time + env.min_block_interval in
      record b {
        header = make_header s b.header.block_type (if ltb t earliest then earliest else t);
      }

  unfoldable pub create_block_and_broadcast : ConsensusState W → Call (ConsensusState W)
  unfolding create_i_block_txs create_b_block_txs broadcast_block
  create_block_and_broadcast s0 = do
    (s, b) ← make_block s0
    broadcast_block (clocked s) (headed s b)

  -- The node at the new round, and the messages that are handled there.
  unfoldable pub enter_new_round : ConsensusState W → Call (ConsensusState W × List Message)
  unfolding is_proposer create_block_and_broadcast relayed
  enter_new_round s = do
    let s' : ConsensusState W = record s { step = step_propose }
    mine ← is_proposer env s'
    s'' ← if mine then create_block_and_broadcast s' else returns s'
    returns (s'', relayed s'')

  abbrev reset_oks : ConsensusState W → ConsensusState W
  reset_oks s =
      if is_i env then record s { bcount = pos (length env.related_shards); bseen = some [] } else s

  unfoldable pub advanced : ConsensusState W → ConsensusState W
  unfolding next
  advanced s = next (reset_oks (record s { step = step_commit }))

  unfoldable pub enter_new_height : ConsensusState W → Call (ConsensusState W × List Message)
  unfolding advanced next_height enter_new_round
  enter_new_height s = do
    let s' = advanced s
    hd ← next_height s'.height_datas
    enter_new_round (record s' { height_datas = hd })

  -- A proposer of a B shard tells the related shards that the height is done.
  abbrev pub announced : Bool → ConsensusState W → ConsensusState W
  announced mine s =
      let ok =
        message_ok (record { height = pos s.height; src_chain = s.height_datas.my_chain_id }) in
      if mine && is_b env then send_to_related_shards env ok s else s

  unfoldable pub do_commit : ConsensusState W → Call (ConsensusState W × List Message)
  unfolding is_proposer enter_new_height
  do_commit s = do mine ← is_proposer env s; enter_new_height (announced mine s)
