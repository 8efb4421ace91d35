-- ===== src/Urd/Consensus/Propose.antt =====
-- source/urd/consensus/state_transition.go: a leader makes a block of the messages of all shards,
-- and proposes it.
use urd_code.Prelude.{
  ℕ, true, ◌||◌, Option, none, some, List, [], ◌∷◌, map, if◌then◌else◌, leb, length,
}
use urd_code.Prelude.Int.{ℤ}
use urd_code.Prelude.Bytes.{Bytes}
use urd_code.Prelude.Maps.{Map, lookup}
use urd_code.Prelude.Calls.{Call, returns, ◌>>=◌}
use urd_code.Hotstuff.Votes.{Vote}
use urd_code.Hotstuff.State.{set_hash, state_add_vote}
use urd_code.Pyramid.Parts.{Part, PartSet}
use urd_code.Urd.Block.{
  Header, Block, CrossShardMessage, CommitCertificateCore, deref, get_last_hash, hash_all, hashed,
}
use urd_code.Urd.BlockData.{BlockData, DataError, add_block}
use urd_code.Urd.Consensus.{
  Env, ConsensusState, Proposal, Error, not_signed, data_error, vote_error, part, proposal, shard,
  fetch_block, append_block, send, enter_next_view, is_multiple_of_six, hash_of,
  generate_vote_for_block, commit_and_execution,
}

abbrev pub part_size : ℕ
part_size = 40960

-- The messages of the shards; one that is missing is a nil pointer, whose fields are read.
unfoldable pub messages_of : List Bytes → Map CrossShardMessage → Call (List CrossShardMessage)
unfolding lookup
messages_of [] m = returns []
messages_of (id ∷ ids) m = do
  csm ← deref (lookup id m)
  rest ← messages_of ids m
  returns (csm ∷ rest)

-- `core.MKProof = *csm.ProofOfIntention` panics where a message has no proof.
unfoldable pub cores_of : List CrossShardMessage → Call (List CommitCertificateCore)
cores_of [] = returns []
cores_of (csm ∷ csms) = do
  last ← get_last_hash csm
  proof ← deref csm.proof_of_intention
  rest ← cores_of csms
  let core : CommitCertificateCore = record {
    hash = last;
    mk_proof = proof;
    intention_brief = csm.intention_brief;
  }
  returns (core ∷ rest)

-- The header of a new block; its roots are filled in when it is hashed.
abbrev pub new_header : Bytes → Bytes → ℤ → ℤ → ℕ → Header
new_header last chain view round time = record {
  hash_pointer = last;
  chain_id = chain;
  view = view;
  round = round;
  time = time;
  prepare_root = [];
  cross_shard_root = [];
  output_txs_root = [];
  last_agg_sig_root = [];
  commit_intention_root = [];
  commit_certificate_root = [];
  commit_txs_list_root = [];
  state_root = [];
  hash = [];
  mk_proof = [];
}

abbrev pub empty_block : Header → Block
empty_block h = record {
  header = h;
  p_txs = none;
  cross_shard_txs = none;
  opt = [];
  agg_sig_vote = none;
  ci = none;
  cc = [];
  c_txs = [];
  c_txs_proof = [];
}

module _ {W : Type 0} (env : Env W) where
  abbrev pub add_agg_sig : ConsensusState W → Block → Call Block
  add_agg_sig s b =
      if leb 1 (length s.block_pool)
      then (do
        csm ← deref (lookup env.chain_id s.block_data.j_1finished)
        returns (record b { agg_sig_vote = csm.agg_vote }))
      else returns b

  -- `none` where a mempool fails.
  abbrev pub add_txs : ConsensusState W → Block → Option Block
  add_txs s b =
      if env.enable_pipeline || is_multiple_of_six s.hotstuff.view
      then elim (env.reap env.max_bytes s.world) [
        | none ↦ none
        | some txs ↦ elim (env.reap_cross_shard env.max_cross_shard_bytes s.world) [
          | none ↦ none
          | some cross ↦ some (record b { p_txs = some txs; cross_shard_txs = some cross })
        ]
      ]
      else some b

  abbrev pub add_intention : ConsensusState W → Block → Call Block
  add_intention s b =
      if leb 2 (length s.block_pool)
      then (do
        csms ← messages_of env.shard_ids s.block_data.j_1finished
        hashes ← hash_all get_last_hash csms
        returns (record b {
          ci = some (record {
            intention_hash = hashes;
            aggregated_signatures = map (λ (c : CrossShardMessage). c.agg_vote) csms;
          });
        }))
      else returns b

  abbrev pub add_certificate : ConsensusState W → Block → Call Block
  add_certificate s b =
      if leb 4 (length s.block_pool)
      then (do
        csms ← messages_of env.shard_ids s.block_data.j_1finished
        cores ← cores_of csms
        returns (record b {
          cc = cores;
          c_txs = map (λ (c : CrossShardMessage). c.op_txs) csms;
          c_txs_proof = map (λ (c : CrossShardMessage). c.output_txs_proof) csms;
        }))
      else returns b

  -- The block after the mempools were read.
  unfoldable pub complete_block :
      List (List Bytes) → ConsensusState W → Block → Call (ConsensusState W × Option Block)
  unfolding messages_of cores_of hash_all hashed
  complete_block op_txs s b = do
    let s' = record s { block_data = record (s.block_data) { j_1_cross_shard_txs = op_txs } }
    with_intention ← add_intention s' (record b { opt = map env.codec.hashing.merkle op_txs })
    with_certificate ← add_certificate s' with_intention
    done ← hashed env.codec.hashing with_certificate
    returns (s', some done)

  unfoldable pub make_block :
      List (List Bytes) → ConsensusState W → Call (ConsensusState W × Option Block)
  unfolding hash_of lookup complete_block
  make_block op_txs s = do
    last ← hash_of env (fetch_block 1 s)
    let (w, time) = env.now s.world
    let s' = record s { world = w }
    b ←
        add_agg_sig s'
          (empty_block (new_header last env.chain_id s.hotstuff.view s.hotstuff.round time))
    elim (add_txs s' b) [ none ↦ returns (s', none) | some b' ↦ complete_block op_txs s' b' ]

  abbrev pub send_parts : List (Option Part) → ConsensusState W → ConsensusState W
  send_parts [] s = s
  send_parts (none ∷ ps) s = send_parts ps s
  send_parts (some p ∷ ps) s = send_parts ps (send (shard env.chain_id) (part p) s)

  abbrev pub new_proposal : PartSet → Bytes → Proposal
  new_proposal ps sig = record {
    header = ps.header;
    proposer_index = env.signer_index;
    block_header_hash = ps.block_header_hash;
    signature = sig;
  }

  -- The proposal and the parts are sent; a signer that fails panics.
  abbrev pub send_proposal : PartSet → ConsensusState W → Call (ConsensusState W)
  send_proposal ps s = do
    sig ← deref (env.sign (env.proposal_sign_bytes (new_proposal ps [])))
    returns (send_parts ps.parts (send (shard env.chain_id) (proposal (new_proposal ps sig)) s))

  -- The leader's own vote is added, and the block goes into the pool.
  abbrev pub vote_own :
      Block → Option Vote → ConsensusState W → Call (ConsensusState W × Option Error)
  vote_own b none s = returns (s, some not_signed)
  vote_own b (some v) s = do
    (hs, e) ← state_add_vote env.wire s.hotstuff v
    let s' = record s { hotstuff = hs }
    returns (elim e [
      | some err ↦ (s', some (vote_error err))
      | none ↦ (
        append_block b (record s' {
          world = env.update_cross_shard b.cross_shard_txs (env.update b.p_txs s.world);
        }),
        none,
      )
    ])

  abbrev pub send_and_vote :
      Block → PartSet → ConsensusState W → Call (ConsensusState W × Option Error)
  send_and_vote b ps s = do
    s' ← send_proposal ps (record s { hotstuff = set_hash s.hotstuff b.header.hash })
    v ← generate_vote_for_block env b b.header.hash_pointer true
    vote_own b v s'

  abbrev pub propose_added :
      Block
      → BlockData × PartSet × Option DataError
      → ConsensusState W
      → Call (ConsensusState W × Option Error)
  propose_added b (bd, ps, some err) s =
      returns (record s { block_data = bd }, some (data_error err))
  propose_added b (bd, ps, none) s = send_and_vote b ps (record s { block_data = bd })

  -- A block that is made is proposed. No block is a nil pointer for `addBlock`.
  unfoldable pub propose_block :
      Option Block → ConsensusState W → Call (ConsensusState W × Option Error)
  unfolding add_block set_hash generate_vote_for_block state_add_vote
  propose_block made s = do
    b ← deref made
    added ← add_block env.codec b part_size s.hotstuff.round s.block_data
    propose_added b added s

  -- `doPropose`
  unfoldable pub do_propose : ConsensusState W → Call (ConsensusState W × Option Error)
  unfolding commit_and_execution enter_next_view make_block propose_block
  do_propose s = do
    (s1, op_txs) ← commit_and_execution env s
    (s2, made) ← make_block op_txs (enter_next_view s1)
    propose_block made s2
