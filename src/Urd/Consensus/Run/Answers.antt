-- ===== src/Urd/Consensus/Run/Answers.antt =====
-- source/urd/consensus/state_transition.go: what a validator does with the block of its view: it goes on
-- to the next view, or votes against the block for ever.
use urd_code.Prelude.{
  ℕ, zero, suc, ◌≡◌, refl, ap, ◌∙◌, Bool, true, false, none, some, List, [], ◌∷◌, ◌++◌, arith,
  if◌then◌else◌, length, length-append, get_elem?,
}
use urd_code.Prelude.Int.{suc_ℤ}
use urd_code.Prelude.Bytes.{Bytes}
use urd_code.Prelude.Calls.{returns}
use urd_code.Hotstuff.Votes.{Vote}
use urd_code.Urd.Block.{Block}
use urd_code.Urd.BlockData.{is_block_complete, get_block}
use urd_code.Urd.Consensus.{
  Env, ConsensusState, validator_wait, is_proposer, next_step, fetch_block, fetch_from, append_to,
  tail, append_block, enter_next_view, hash_of, verify_block, generate_vote_for_block,
  commit_and_execution, node, vote, send,
}
use urd_code.Urd.Consensus.Frames.{Enters}
use urd_code.Urd.Consensus.Run.{
  answer_block, goes, accept, do_validate, transition, advance, handle,
}
use urd_code.Urd.Consensus.Run.Invariants.{accept-Enters}

get_elem?-last : {A : Type 0} (xs : List A) (a : A) → get_elem? (xs ++ a ∷ []) (length xs) ≡ some a
get_elem?-last [] a = refl
get_elem?-last (x ∷ xs) a = get_elem?-last xs a

fetch_from-last : (xs : List Block) (b : Block) → fetch_from (xs ++ b ∷ []) 1 ≡ some b
fetch_from-last xs b = ground (arith, get_elem?-last xs b, length-append xs (b ∷ []))

fetch_from-append_to : (pool : List Block) (b : Block) → fetch_from (append_to pool b) 1 ≡ some b
fetch_from-append_to pool b = ground (arith, fetch_from-last pool b, fetch_from-last (tail pool) b)

module _ {W : Type 0} (env : Env W) where
  -- The vote that is sent to the leader.
  abbrev pub answered : Vote → ConsensusState W → ConsensusState W
  answered v s = record (send (node env.chain_id env.proposer_index) (vote v) s) {
    step = validator_wait;
  }

  advance-answered :
      (ok : Bool) (s s1 : ConsensusState W) (b : Block) (last : Bytes) (v : Vote)
      → is_proposer env ≡ false
      → s.step ≡ validator_wait
      → is_block_complete s.hotstuff.view s.hotstuff.round s.block_data ≡ true
      → get_block env.codec s.hotstuff.view s.hotstuff.round s.block_data ≡ returns (some b, none)
      → verify_block env b s ≡ returns ok
      → hash_of env (fetch_block 1 s) ≡ returns last
      → generate_vote_for_block env b last ok ≡ returns (some v)
      → (if ok then accept env b s else returns s) ≡ returns s1
      → advance env s ≡ returns (answered v s1, goes)
  unfolding advance transition do_validate next_step
  advance-answered ok s s1 b last v leads at complete got verified hashed signed r =
      let t : answer_block env ok b (some v) s
          ≡ returns (send (node env.chain_id env.proposer_index) (vote v) s1, none) =
        rw r in
      let u : transition env s.step s
          ≡ returns (send (node env.chain_id env.proposer_index) (vote v) s1, goes) =
        ap (λ step. transition env step s) at ∙ rw (complete, got, verified, hashed, signed, t) in
      rw (u, leads)

  -- A validator that rejects the block of its view never stops: its vote is sent again and again.
  -- Where the block is there and is rejected, and the vote against it is signed, no fuel is enough.
  pub handle-rejected_loops :
      (fuel : ℕ) (s : ConsensusState W) (b : Block) (last : Bytes) (v : Vote)
      → is_proposer env ≡ false
      → s.step ≡ validator_wait
      → is_block_complete s.hotstuff.view s.hotstuff.round s.block_data ≡ true
      → get_block env.codec s.hotstuff.view s.hotstuff.round s.block_data ≡ returns (some b, none)
      → verify_block env b s ≡ returns false
      → hash_of env (fetch_block 1 s) ≡ returns last
      → generate_vote_for_block env b last false ≡ returns (some v)
      → handle env fuel s ≡ returns none
  unfolding handle
  handle-rejected_loops zero s b last v leads at complete got rejected hashed signed = refl
  handle-rejected_loops (suc fuel) s b last v leads at complete got rejected hashed signed =
      let again = answered v s in
      let q =
        advance-answered false s s b last v leads at complete got rejected hashed signed refl in
      let rest =
        handle-rejected_loops fuel again b last v leads refl complete got rejected hashed signed in
      rw (q, rest)

  -- A validator that has the block of its view and accepts it goes on: its vote for the block is sent to
  -- the leader, the next view begins, and the block is the last of its pool.
  pub advance-accepted :
      (s s1 : ConsensusState W) (b : Block) (last : Bytes) (v : Vote) (op_txs : List (List Bytes))
      → is_proposer env ≡ false
      → s.step ≡ validator_wait
      → is_block_complete s.hotstuff.view s.hotstuff.round s.block_data ≡ true
      → get_block env.codec s.hotstuff.view s.hotstuff.round s.block_data ≡ returns (some b, none)
      → verify_block env b s ≡ returns true
      → hash_of env (fetch_block 1 s) ≡ returns last
      → generate_vote_for_block env b last true ≡ returns (some v)
      → commit_and_execution env s ≡ returns (s1, op_txs)
      → (s' : ConsensusState W) × (advance env s ≡ returns (s', goes))
        × (s'.hotstuff.view ≡ suc_ℤ s.hotstuff.view)
        × (s'.step ≡ validator_wait)
        × (fetch_block 1 s' ≡ some b)
        × (s'.sent ≡ s1.sent ++ (node env.chain_id env.proposer_index, vote v) ∷ [])
  unfolding accept Enters enter_next_view
  advance-accepted s s1 b last v op_txs leads at complete got accepted hashed signed executed =
      let s2 = append_block b (enter_next_view s1) in
      let r : accept env b s ≡ returns s2 = rw executed in
      (
        answered v s2,
        advance-answered true s s2 b last v leads at complete got accepted hashed signed r,
        (accept-Enters env b s s2 r).0,
        refl,
        fetch_from-append_to s1.block_pool b,
        refl,
      )
