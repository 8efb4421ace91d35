-- ===== src/Urd/Tests/Node.antt =====
-- A node of source/urd on a shard that is alone, with blocks of each view, by which it is run.
use urd_code.Prelude.{ℕ, suc, true, false, none, some, [], ◌∷◌}
use urd_code.Prelude.Int.{ℤ, pos}
use urd_code.Prelude.Bytes.{Bytes}
use urd_code.Prelude.Calls.{returns, returns}
use urd_code.Signer.{Verifier}
use urd_code.Hotstuff.Votes.{AggregatedVote}
use urd_code.Pyramid.Parts.{Proof}
use urd_code.Urd.Block.{Block, Header, Hashing}
use urd_code.Urd.Parts.{Codec}
use urd_code.Urd.Consensus.{Env, ConsensusState, validator_wait, enter_next_view}
use urd_code.Urd.Consensus.Run.{new_consensus_state}

abbrev pub chain : Bytes
chain = 1 ∷ []

abbrev pub proof : Proof
proof = record { total = pos 1; index = pos 0; leaf_hash = []; aunts = [] }

abbrev pub hashing : Hashing
hashing = record {
  merkle = λ bs. 8 ∷ [];
  proofs = λ bs. (7 ∷ [], []);
  verifies = λ p root leaf. true;
  root_of = λ p. [];
  aggregated_bytes = λ v. v.for_hash;
  time_bytes = λ t. [];
}

abbrev pub agg : AggregatedVote
agg = record {
  code = pos 1;
  view = pos 0;
  round = pos 0;
  for_hash = 9 ∷ [];
  for_necessary_data = [] ∷ [];
  sign = [];
  signer_indexer = none;
}

abbrev pub header : ℤ → Header
header view = record {
  hash_pointer = [];
  chain_id = chain;
  view = view;
  round = pos 0;
  time = 0;
  prepare_root = [];
  cross_shard_root = [];
  output_txs_root = [];
  last_agg_sig_root = [];
  commit_intention_root = [];
  commit_certificate_root = [];
  commit_txs_list_root = [];
  state_root = [];
  hash = [];
  mk_proof = [];
}

-- Its aggregated vote is not for the last block of an empty pool.
abbrev pub block_at : ℤ → Block
block_at view = record {
  header = header view;
  p_txs = none;
  cross_shard_txs = none;
  opt = [];
  agg_sig_vote = some agg;
  ci = none;
  cc = [];
  c_txs = [];
  c_txs_proof = [];
}

-- The block with its roots and its hash.
abbrev pub done_at : ℤ → Block
done_at view = record (block_at view) {
  header = record (header view) {
    output_txs_root = 8 ∷ [];
    last_agg_sig_root = 8 ∷ [];
    commit_certificate_root = 8 ∷ [];
    commit_txs_list_root = 8 ∷ [];
    hash = 7 ∷ [];
  };
}

abbrev pub codec : ℤ → Codec
codec view = record {
  hashing = hashing;
  block_bytes = λ b. 5 ∷ [];
  block_from_bytes = λ bz. returns (some (block_at view));
}

-- A node at an index of a shard whose leader has the index 0.
abbrev pub env : ℤ → ℤ → Env ℕ
env index view = record {
  enable_pipeline = false;
  signer_index = index;
  proposer_index = pos 0;
  chain_id = chain;
  shard_ids = chain ∷ [];
  leaders = (chain, pos 0) ∷ [];
  max_bytes = 10;
  max_cross_shard_bytes = 10;
  codec = codec view;
  wire = record { vote_bytes = λ v. v.for_hash; aggregated_bytes = λ v. v.for_hash };
  proposal_sign_bytes = λ p. [];
  sign = λ m. some (3 ∷ []);
  aggregate_signatures = λ sigs. some [];
  message_bytes = λ m. 6 ∷ [];
  message_from_bytes = λ bz. none;
  execution = λ p c t w. returns (w, []);
  reap = λ n w. some [];
  reap_cross_shard = λ n w. some [];
  update = λ txs w. w;
  update_cross_shard = λ txs w. w;
  has_special = λ k w. some false;
  set_special = λ k v w. some (suc w);
  get_special = λ k w. some [];
  now = λ w. (w, 0);
}

abbrev pub verifier : Verifier
verifier = record { keys = 2; verifies = λ i sig msg. true; verifies_sum = λ is sig msg. true }

abbrev pub fresh : ℤ → ConsensusState ℕ
fresh index = new_consensus_state (env index (pos 1)) (pos 0) (pos 0) verifier (1 ∷ 1 ∷ []) 0

abbrev pub begun : ConsensusState ℕ
begun = record (enter_next_view (fresh (pos 1))) { step = validator_wait }
