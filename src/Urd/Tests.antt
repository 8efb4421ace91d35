-- ===== src/Urd/Tests.antt =====
-- Runs of source/urd: a node of a shard that is alone.
mod Node
use urd_code.Prelude.{
  ℕ, suc, ◌≡◌, ◌≢◌, ◌<◌, refl, true, false, none, some, List, [], ◌∷◌, ◌++◌, arith, length,
}
use urd_code.Prelude.Int.{ℤ, pos, ltb_ℤ}
use urd_code.Prelude.Bytes.{Bytes}
use urd_code.Prelude.Calls.{returns}
use urd_code.Signer.{Verifier}
use urd_code.Hotstuff.Votes.{Vote, AggregatedVote}
use urd_code.Hotstuff.State.{new_state}
use urd_code.Pyramid.Parts.{Proof, PartSet}
use urd_code.Urd.Block.{Block, Header, Hashing, CrossShardMessage}
use urd_code.Urd.Parts.{Codec}
use urd_code.Urd.BlockData.{is_cross_shard_complete, is_block_complete, get_block}
use urd_code.Urd.Consensus.{
  Env, ConsensusState, cross_shard_message, vote, node, validator_wait, leader_wait, fetch_block,
  hash_of, verify_block, generate_vote_for_block, commit_and_execution, enter_next_view,
}
use urd_code.Urd.Consensus.Propose.{messages_of}
use urd_code.Urd.Consensus.Frames.{IsValid}
use urd_code.Urd.Consensus.Run.{goes, advance, handle, receive, start, new_consensus_state}
use urd_code.Urd.Consensus.Run.Reach.{
  Reaches, started, took, Reaches-IsValid, Reaches-messages, receive_mono,
}
use urd_code.Urd.Consensus.Run.Ends.{transitions_left, handle-leader_ends}
use urd_code.Urd.Consensus.Run.Answers.{handle-rejected_loops, advance-accepted}
use urd_code.Urd.Tests.Node.{
  chain, proof, hashing, agg, header, block_at, done_at, codec, env, verifier, fresh, begun,
}

Reaches-begun : Reaches (env (pos 1) (pos 1)) begun
unfolding start new_consensus_state new_state
Reaches-begun = started (pos 0) (pos 0) verifier (1 ∷ 1 ∷ []) 0 0 none refl

abbrev csm : CrossShardMessage
csm = record {
  source_chain = chain;
  agg_vote = some agg;
  intention_brief = [];
  proof_of_intention = none;
  op_txs = [];
  output_txs_proof = none;
}

-- The message of its own shard is the last one that it waits for.
abbrev informed : ConsensusState ℕ
informed = record begun {
  world = 1;
  block_data = record (begun.block_data) {
    finished = (chain, csm) ∷ [];
    last_hash = (chain, 9 ∷ []) ∷ [];
  };
}

takes_message :
    receive (env (pos 1) (pos 1)) (λ p. true) 1 (cross_shard_message csm) begun
    ≡ returns (some (informed, none))
unfolding receive new_consensus_state
takes_message = refl

Reaches-informed : Reaches (env (pos 1) (pos 1)) informed
Reaches-informed = took (λ p. true) 1 (cross_shard_message csm) none Reaches-begun takes_message

Reaches-IsValid_example : IsValid informed
Reaches-IsValid_example = Reaches-IsValid (env (pos 1) (pos 1)) informed Reaches-informed

informed_complete : is_cross_shard_complete informed.block_data ≡ true
unfolding new_consensus_state
informed_complete = refl

Reaches-messages_example :
    (csms : List CrossShardMessage) × (messages_of
        (chain ∷ [])
        (enter_next_view informed).block_data.j_1finished
      ≡ returns csms)
    × (length csms ≡ 1)
Reaches-messages_example =
    Reaches-messages (env (pos 1) (pos 1)) informed Reaches-informed informed_complete

receive_mono_example : ltb_ℤ informed.hotstuff.view begun.hotstuff.view ≡ false
receive_mono_example =
    receive_mono (env (pos 1) (pos 1)) (λ p. true) 1 (cross_shard_message csm) begun informed none
      takes_message

-- The leader, which waits for messages in view 1.
abbrev leader : ConsensusState ℕ
leader = record (enter_next_view (fresh (pos 0))) { step = leader_wait }

leader_view : leader.hotstuff.view ≡ pos 1
unfolding enter_next_view new_consensus_state
leader_view = refl

leader_fuel : transitions_left leader < 1201
unfolding enter_next_view new_consensus_state
leader_fuel = omega arith

handle-leader_ends_example : handle (env (pos 0) (pos 1)) 1201 leader ≢ returns none
handle-leader_ends_example =
    handle-leader_ends (env (pos 0) (pos 1)) 1201 leader 1 refl leader_view leader_fuel

abbrev part_set : ℤ → PartSet
part_set view = record {
  header = record { height = view; round = pos 0; total = pos 1; root = []; chain_id = chain };
  parts =
      some
        (record { chain_id = chain; height = view; round = pos 0; bytes = 5 ∷ []; proof = proof })
      ∷ [];
  count = 1;
  block_header_hash = 7 ∷ [];
}

-- A validator that has the block of its view.
abbrev holding : ℤ → ConsensusState ℕ
holding view = record begun {
  hotstuff = record (begun.hotstuff) { view = view; round = pos 0 };
  block_data = record (begun.block_data) {
    retain_view = view;
    blocks = (view, (pos 0, part_set view) ∷ []) ∷ [];
  };
  block_pool = [];
}

abbrev vote_at : ℤ → ℤ → Vote
vote_at code view = record {
  code = code;
  view = view;
  round = pos 0;
  for_hash = 7 ∷ [];
  for_necessary_data = [] ∷ [];
  sign = 3 ∷ [];
  validator_index = pos 1;
}

complete_5 : is_block_complete (pos 5) (pos 0) (holding (pos 5)).block_data ≡ true
unfolding is_block_complete
complete_5 = refl

got_5 :
    get_block (codec (pos 5)) (pos 5) (pos 0) (holding (pos 5)).block_data
    ≡ returns (some (done_at (pos 5)), none)
unfolding get_block
got_5 = refl

rejected_5 : verify_block (env (pos 1) (pos 5)) (done_at (pos 5)) (holding (pos 5)) ≡ returns false
unfolding verify_block new_consensus_state
rejected_5 = refl

no_last_5 : hash_of (env (pos 1) (pos 5)) (fetch_block 1 (holding (pos 5))) ≡ returns []
unfolding hash_of
no_last_5 = refl

signed_5 :
    generate_vote_for_block (env (pos 1) (pos 5)) (done_at (pos 5)) [] false
    ≡ returns (some (vote_at (pos 2) (pos 5)))
unfolding generate_vote_for_block
signed_5 = refl

handle-rejected_loops_example : handle (env (pos 1) (pos 5)) 3 (holding (pos 5)) ≡ returns none
handle-rejected_loops_example =
    handle-rejected_loops (env (pos 1) (pos 5)) 3 (holding (pos 5)) (done_at (pos 5)) []
      (vote_at (pos 2) (pos 5)) refl refl complete_5 got_5 rejected_5 no_last_5 signed_5

complete_4 : is_block_complete (pos 4) (pos 0) (holding (pos 4)).block_data ≡ true
unfolding is_block_complete
complete_4 = refl

got_4 :
    get_block (codec (pos 4)) (pos 4) (pos 0) (holding (pos 4)).block_data
    ≡ returns (some (done_at (pos 4)), none)
unfolding get_block
got_4 = refl

accepted_4 : verify_block (env (pos 1) (pos 4)) (done_at (pos 4)) (holding (pos 4)) ≡ returns true
unfolding verify_block
accepted_4 = refl

no_last_4 : hash_of (env (pos 1) (pos 4)) (fetch_block 1 (holding (pos 4))) ≡ returns []
unfolding hash_of
no_last_4 = refl

signed_4 :
    generate_vote_for_block (env (pos 1) (pos 4)) (done_at (pos 4)) [] true
    ≡ returns (some (vote_at (pos 1) (pos 4)))
unfolding generate_vote_for_block
signed_4 = refl

executed_4 :
    commit_and_execution (env (pos 1) (pos 4)) (holding (pos 4)) ≡ returns (holding (pos 4), [])
unfolding commit_and_execution
executed_4 = refl

advance-accepted_example :
    (s' : ConsensusState ℕ) × (advance (env (pos 1) (pos 4)) (holding (pos 4)) ≡ returns (s', goes))
    × (s'.hotstuff.view ≡ pos 5)
    × (s'.step ≡ validator_wait)
    × (fetch_block 1 s' ≡ some (done_at (pos 4)))
    × (s'.sent
        ≡ (holding (pos 4)).sent ++ (node chain (pos 0), vote (vote_at (pos 1) (pos 4))) ∷ [])
advance-accepted_example =
    advance-accepted (env (pos 1) (pos 4)) (holding (pos 4)) (holding (pos 4)) (done_at (pos 4)) []
      (vote_at (pos 1) (pos 4)) [] refl refl complete_4 got_4 accepted_4 no_last_4 signed_4
      executed_4
