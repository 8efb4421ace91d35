-- ===== src/Pyramid/Consensus/Run/Tests.antt =====
-- Runs of source/pyramid/consensus/main.go: a node of an I shard with one related B shard, which is not
-- the proposer of its first height, starts and takes an OK message.
use urd_code.Prelude.{
  ℕ, arith, ◌≡◌, ◌≤◌, refl, true, false, Option, none, some, List, [], ◌∷◌, length,
}
use urd_code.Prelude.Int.{ℤ, pos, negsuc}
use urd_code.Prelude.Bytes.{Bytes, bytes_eq}
use urd_code.Prelude.Maps.{Map, lookup}
use urd_code.Prelude.IntMaps.{find_at}
use urd_code.Prelude.Calls.{returns}
use urd_code.Signer.{Verifier}
use urd_code.Pyramid.VoteSet.{VoteSet}
use urd_code.Pyramid.Votes.{Wire, PrecommitAggregated, precommit_aggregated}
use urd_code.Pyramid.HeightData.{HeightData, Peer}
use urd_code.Pyramid.Block.{Block, Hashing, new_block, block_hash}
use urd_code.Pyramid.Consensus.{
  Env, ConsensusState, CrossShardBlock, MessageOk, message_ok, i_shard, verify_collective,
  is_related,
}
use urd_code.Pyramid.Consensus.Messages.{transits, receive_ok, receive_cross_shard_block}
use urd_code.Pyramid.Consensus.Frames.{AcceptsValid}
use urd_code.Pyramid.Consensus.Moves.{OksValid}
use urd_code.Pyramid.Consensus.Run.{do_message, start, new_consensus_state}
use urd_code.Pyramid.Consensus.Run.Invariants.{HeightsAgree, HasQuorums}
use urd_code.Pyramid.Consensus.Run.Reach.{
  Reaches, started, took, Reaches-HasQuorums, Reaches-HeightsAgree, Reaches-counts,
  receive_ok-early,
}
use urd_code.Pyramid.Consensus.Run.Receive.{Decoders, receive_bytes, receive_bytes-Reaches}
use urd_code.Pyramid.Consensus.Run.CrossShard.{receive_cross_shard_block-takes_any}

abbrev hashing : Hashing
hashing = record { merkle = λ bs. length bs ∷ []; sum = λ b. b; time_bytes = λ t. some (t ∷ []) }

abbrev wire : Wire
wire = record { proposal_bytes = λ _ _ _ _. []; vote_bytes = λ _ _ _ _ _. [] }

abbrev b_chain : Bytes
b_chain = 9 ∷ []

-- A world in which nothing happens.
abbrev env : Env ℕ
env = record {
  identity = i_shard;
  related_shards = b_chain ∷ [];
  signer_index = 0;
  min_block_interval = 5;
  max_part_size = 8;
  max_block_tx_num = 4;
  hashing = hashing;
  wire = wire;
  proto_bytes = λ _. [];
  from_bytes = λ _. returns none;
  verify_proof = λ _ _ _. true;
  proofs = λ _. ([], []);
  aggregate_signatures = λ _. some [];
  sign = λ _. some [];
  encode_cross_shard_block = λ _. [];
  decode_cross_shard_block = λ _. none;
  encode_accept_set = λ _. [];
  decode_accept_set = λ _. none;
  encode_commit = λ _. [];
  decode_commit = λ _. none;
  pre_execution_b = λ _ w. returns (w, true);
  pre_execution_i = λ _ w. returns (w, true);
  execution_inner_shard = λ _ w. returns (w, []);
  accept_cross_shard = λ _ _ _ w. returns (w, []);
  accept_commit_shard = λ _ _ _ w. returns (w, []);
  commit = λ w. (w, []);
  fill_data = λ b _. b;
  ok_receipt = [];
  reap = λ _ _. [];
  reap_cross_shard = λ _ _. [];
  update = λ _ w. w;
  update_cross_shard = λ _ w. w;
  has_block = λ _ _. false;
  set_block = λ _ _ _ w. w;
  block_by_height = λ _ _ _. none;
  block_by_hash = λ _ _. none;
  now = λ w. (w, w);
  intn = λ w _. (w, 0);
}

abbrev verifier : Verifier
verifier = record { keys = 2; verifies = λ _ _ _. true; verifies_sum = λ _ _ _. true }

abbrev new_verifier : List Bytes → Option Verifier
new_verifier _ = some verifier

abbrev my_chain : Bytes
my_chain = 5 ∷ []

abbrev peers : List Peer
peers = record { pubkey = []; vote = 1 } ∷ record { pubkey = []; vote = 1 } ∷ []

abbrev peer_list : Map (List Peer)
peer_list = (my_chain, peers) ∷ (b_chain, peers) ∷ []

abbrev ok : ℤ → MessageOk
ok h = record { height = h; src_chain = b_chain }

-- The node after its start, and after the OK message of its height.
run :
    (s1 : ConsensusState ℕ) × (s2 : ConsensusState ℕ) × Reaches env s1
    × (do_message env 3 (message_ok (ok (pos 1))) s1 ≡ returns (some s2))
unfolding new_consensus_state start do_message
run = (_, _, started new_verifier my_chain peer_list 0 0 1 _ refl refl, refl)

after_ok : Reaches env run.1
after_ok = took 3 (message_ok (ok (pos 1))) run.2 run.3

Reaches-HasQuorums_example : HasQuorums run.1
Reaches-HasQuorums_example = Reaches-HasQuorums env run.1 after_ok

Reaches-HeightsAgree_example : HeightsAgree run.1
Reaches-HeightsAgree_example = Reaches-HeightsAgree env run.1 after_ok

Reaches-counts_example : OksValid env run.1 × AcceptsValid env run.1
Reaches-counts_example = Reaches-counts env run.1 after_ok

-- Every message is refused, but an OK message of height 1.
abbrev decoders : Decoders
decoders = record {
  is_basic_proof = λ _. true;
  part_from_bytes = λ _. none;
  proposal_from_bytes = λ _. none;
  vote_from_bytes = λ _. none;
  cross_shard_block_from_bytes = λ _. none;
  accept_from_bytes = λ _. none;
  commit_from_bytes = λ _. none;
  ok_from_bytes = λ _. some (ok (pos 1));
}

takes_ok : receive_bytes decoders env 3 10 [] run.0 ≡ returns (some run.1, none)
unfolding receive_bytes
takes_ok = ground (arith, run.3)

receive_bytes-Reaches_example : Reaches env run.1 × (run.0.height ≤ run.1.height)
receive_bytes-Reaches_example =
    receive_bytes-Reaches decoders env 3 10 [] run.0 run.1 none run.2 takes_ok

abbrev no_votes : VoteSet
no_votes = record {
  validator_num = 2;
  total_votes = 2;
  votes = none ∷ none ∷ [];
  block_header_hash_cnt = [];
  bit_vector = none;
  has_mj23 = false;
  mj23_key = [];
  mj23_code = false;
}

abbrev heights : HeightData Block
heights = record {
  height = pos 4;
  round = pos 0;
  my_chain_id = my_chain;
  pass_step = 1;
  peer_list = peer_list;
  shard_votes = (my_chain, 2) ∷ [];
  all_validator_set = (my_chain, verifier) ∷ (b_chain, verifier) ∷ [];
  proposal = none;
  prevotes = no_votes;
  precommits = no_votes;
  part_set = none;
  block = none;
  random_header_buffer = [];
}

-- The node in a later height.
abbrev idle : ConsensusState ℕ
idle = record {
  height = 4;
  round = 0;
  step = 3;
  height_datas = heights;
  relay_message_channel = [];
  last_block_time = 0;
  last_block_hash = [];
  last_receipt_root = [];
  last_state_root = [];
  block_hash = [];
  cross_shard_block_pool = [];
  commit_pool = [];
  committed = [];
  bcount = pos 1;
  bseen = some [];
  pending_cross_shard_block_hash = [];
  pending_block_size = 0;
  ma_count = negsuc 0;
  ma_pool = none;
  shard_height = [];
  world = 0;
  sent = [];
}

none_waits : find_at (pos 5) idle.relay_message_channel ≡ none
unfolding find_at
none_waits = refl

receive_ok-early_example :
    (s' : ConsensusState ℕ) × (receive_ok env (ok (pos 5)) idle ≡ returns (s', transits))
    × (find_at (pos 5) s'.relay_message_channel ≡ some ((pos 0, message_ok (ok (pos 5)) ∷ []) ∷ []))
    × (s'.bcount ≡ pos 0)
    × (s'.bseen ≡ some (b_chain ∷ []))
receive_ok-early_example = receive_ok-early env (ok (pos 5)) idle [] refl none_waits refl refl

abbrev signed : PrecommitAggregated
signed = record {
  vote_type = precommit_aggregated;
  is_ok = true;
  validator_bit_vector = some (record { bits = 2; elems = 0 ∷ [] });
  header = record { height = pos 3; round = pos 0; total = pos 1; root = []; chain_id = b_chain };
  block_header_hash = 1 ∷ [];
  aggregated_signatures = [];
}

abbrev csb : CrossShardBlock
csb = record { block = new_block; collective_signatures = signed }

abbrev other_block : Block
other_block = record new_block { body_txs = (7 ∷ []) ∷ [] }

related : is_related env b_chain ≡ true
unfolding bytes_eq
related = refl

verified : verify_collective env idle signed ≡ returns true
unfolding verify_collective bytes_eq
verified = refl

receive_cross_shard_block-takes_any_example :
    (s' : ConsensusState ℕ) × (receive_cross_shard_block env 2
        (record csb { block = other_block })
        idle
      ≡ returns (s', transits))
    × (lookup (block_hash hashing other_block).1 s'.cross_shard_block_pool
        ≡ some (record csb { block = (block_hash hashing other_block).0 }))
receive_cross_shard_block-takes_any_example =
    receive_cross_shard_block-takes_any env 2 csb other_block idle refl related verified refl
