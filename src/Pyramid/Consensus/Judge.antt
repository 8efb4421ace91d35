-- ===== src/Pyramid/Consensus/Judge.antt =====
-- source/pyramid/consensus/main.go: `doPropose`, which judges a proposed block and votes for it, and
-- `doPrevote`.
use urd_code.Prelude.{
  Bool, true, false, not, none, some, List, [], ◌∷◌, if◌then◌else◌, ◌==◌, length,
}
use urd_code.Prelude.Int.{pos, eqb_ℤ}
use urd_code.Prelude.Bytes.{Bytes, bytes_eq}
use urd_code.Prelude.Calls.{Call, returns, panics, ◌>>=◌}
use urd_code.Pyramid.VoteSet.{read_elem, get_maj23}
use urd_code.Pyramid.Votes.{StepVote, new_prevote, new_precommit, set_ok, vote_sign_bytes}
use urd_code.Pyramid.HeightData.Add.{add_prevote, add_precommit}
use urd_code.Pyramid.Block.{
  Block, block_hash, type_inner_shard, type_cross_shard, type_b_commit, type_i_commit,
  type_i_accept,
}
use urd_code.Pyramid.Consensus.{
  Env, ConsensusState, MessageAccept, prevote, precommit, is_b, is_related, block_codec,
  verify_collective, send_internal, next,
}

module _ {W : Type 0} (env : Env W) where
  -- The loop over the accepts of a commit block: whether all are right, and whether to vote for it.
  unfoldable pub check_accepts : ConsensusState W → List MessageAccept → Bool → Call (Bool × Bool)
  unfolding verify_collective
  check_accepts s [] pvote = returns (true, pvote)
  check_accepts s (ma ∷ mas) pvote =
      if not (is_related env ma.collective_signatures.header.chain_id)
      then returns (false, pvote)
      else (do
        ok ← verify_collective env s ma.collective_signatures
        if ok
            then check_accepts s mas (if ma.collective_signatures.is_ok then pvote else false)
            else returns (false, pvote))

  -- The loop over the transactions of a block that commits in an I shard.
  unfoldable pub check_commits : ConsensusState W → List Bytes → Call Bool
  unfolding verify_collective
  check_commits s [] = returns true
  check_commits s (tx ∷ txs) = elim (env.decode_commit tx) [
    | none ↦ returns false
    | some mc ↦
        if not (is_related env mc.collective_signatures.header.chain_id) then returns false else (do
          ok ← verify_collective env s mc.collective_signatures
          if ok then check_commits s txs else returns false)
  ]

  unfoldable pub judge_commit_block : ConsensusState W → List Bytes → Call (Bool × Bool)
  unfolding check_accepts bytes_eq
  judge_commit_block s (tx ∷ []) = elim (env.decode_accept_set tx) [
    | none ↦ returns (false, true)
    | some ba ↦
        if not (bytes_eq s.pending_cross_shard_block_hash ba.block_hash)
        then returns (false, true)
        else if not (length ba.accepts == length env.related_shards)
        then returns (false, true)
        else check_accepts s ba.accepts true
  ]
  judge_commit_block s _ = returns (false, true)

  unfoldable pub judge_accept_block : ConsensusState W → List Bytes → Call (W × Bool × Bool)
  unfolding verify_collective
  judge_accept_block s (tx ∷ []) = elim (env.decode_cross_shard_block tx) [
    | none ↦ returns (s.world, false, true)
    | some csb ↦
        if not (is_related env csb.collective_signatures.header.chain_id)
        then returns (s.world, false, true)
        else (do
          ok ← verify_collective env s csb.collective_signatures
          if ok
              then (do (w, good) ← env.pre_execution_i csb.block s.world; returns (w, true, good))
              else returns (s.world, false, true))
  ]
  judge_accept_block s _ = returns (s.world, false, true)

  -- The world after it, `flag` and `pvote`.
  unfoldable pub judge_b : ConsensusState W → Block → Call (W × Bool × Bool)
  unfolding judge_commit_block
  judge_b s b =
      let t = b.header.block_type in
      if eqb_ℤ t type_inner_shard
      then returns (s.world, true, true)
      else if eqb_ℤ t type_cross_shard
      then (do (w, good) ← env.pre_execution_b b s.world; returns (w, good, true))
      else if eqb_ℤ t type_b_commit
      then (do (flag, pvote) ← judge_commit_block s b.body_txs; returns (s.world, flag, pvote))
      else returns (s.world, false, true)

  unfoldable pub judge_i : ConsensusState W → Block → Call (W × Bool × Bool)
  unfolding judge_accept_block check_commits
  judge_i s b =
      let t = b.header.block_type in
      if eqb_ℤ t type_inner_shard
      then returns (s.world, true, true)
      else if eqb_ℤ t type_i_accept
      then judge_accept_block s b.body_txs
      else if eqb_ℤ t type_i_commit
      then (do flag ← check_commits s b.body_txs; returns (s.world, flag, true))
      else returns (s.world, false, true)

  unfoldable pub judge : ConsensusState W → Block → Call (W × Bool × Bool)
  unfolding judge_b judge_i
  judge s b = if is_b env then judge_b s b else judge_i s b

  -- Signs the prevote, counts it and sends it. An error of the signer panics.
  unfoldable pub cast_prevote : ConsensusState W → StepVote → Call (ConsensusState W)
  unfolding add_prevote vote_sign_bytes next
  cast_prevote s vote = do
    sig ← read_elem (env.sign (vote_sign_bytes env.wire vote))
    let signed : StepVote = record vote { signature = sig }
    (hd, _) ← add_prevote (block_codec env) env.wire s.height_datas signed
    returns (next (send_internal (prevote signed) (record s { height_datas = hd })))

  -- A block that is judged wrong panics. Hashing the block fills its header.
  unfoldable pub do_propose : ConsensusState W → Call (ConsensusState W)
  unfolding judge cast_prevote block_hash new_prevote set_ok
  do_propose s = do
    block ← read_elem s.height_datas.block
    let (block', hash) = block_hash env.hashing block
    let s' : ConsensusState W = record s {
      height_datas = record (s.height_datas) { block = some block' };
      block_hash = hash;
    }
    (w, flag, pvote) ← judge s' block'
    if flag
        then cast_prevote (record s' { world = w })
            (set_ok pvote (new_prevote (pos s.height) (pos s.round) hash (pos env.signer_index)))
        else panics

  unfoldable pub do_prevote : ConsensusState W → Call (ConsensusState W)
  unfolding add_precommit vote_sign_bytes next new_precommit set_ok
  do_prevote s = do
    let (hash, ok) = get_maj23 s.height_datas.prevotes
    let vote = set_ok ok (new_precommit (pos s.height) (pos s.round) hash (pos env.signer_index))
    sig ← read_elem (env.sign (vote_sign_bytes env.wire vote))
    let signed : StepVote = record vote { signature = sig }
    (hd, _) ← add_precommit (block_codec env) env.wire s.height_datas signed
    returns (next (send_internal (precommit signed) (record s { height_datas = hd })))
