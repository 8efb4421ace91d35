-- ===== src/Pyramid/Consensus/Messages.antt =====
-- source/pyramid/consensus/main.go: `doMessage`, up to the state transition that it ends with.
use urd_code.Prelude.{
  ℕ, zero, suc, Bool, true, false, not, Option, none, some, List, ◌∷◌, if◌then◌else◌,
}
use urd_code.Prelude.Int.{ℤ, pos, ltb_ℤ, suc_ℤ, pred_ℤ}
use urd_code.Prelude.Bytes.{Bytes, bytes_eq}
use urd_code.Prelude.Maps.{Map, lookup, insert, contains}
use urd_code.Prelude.Calls.{Call, returns, panics, ◌>>=◌}
use urd_code.Pyramid.VoteSet.{read_elem}
use urd_code.Pyramid.Parts.{Part}
use urd_code.Pyramid.Votes.{Proposal, StepVote}
use urd_code.Pyramid.HeightData.{HeightData, AddError, do_nothing}
use urd_code.Pyramid.HeightData.Add.{height_add_part, add_proposal, add_prevote, add_precommit}
use urd_code.Pyramid.Block.{Block, block_hash}
use urd_code.Pyramid.Consensus.{
  Env, ConsensusState, Message, CrossShardBlock, MessageAccept, MessageCommit, MessageOk, part,
  proposal, prevote, precommit, cross_shard_block, message_accept, message_commit, message_ok,
  mem_bytes, is_i, is_b, is_related, block_codec, verify_collective, calculate_proposer,
  add_relay_message,
}
use urd_code.Pyramid.Consensus.Process.{process_i_block}

pub data MessageError : Type 0 where
  height_error : AddError → MessageError
  not_adjacent wrong_signatures i_shard_accept b_shard_commit : MessageError

-- A message is answered with nil or an error, the state transition follows, or the loop over the
-- stored blocks has no fuel left.
pub data Answer : Type 0 where
  done : Answer
  fails : MessageError → Answer
  transits : Answer
  no_fuel : Answer

abbrev answer : Option AddError → Answer
answer none = transits
answer (some do_nothing) = done
answer (some e) = fails (height_error e)

abbrev pub last_height : Option ℤ → ℤ
last_height none = pos 0
last_height (some h) = h

module _ {W : Type 0} (env : Env W) where
  -- What follows `addRelayMessageIfOverTime`.
  abbrev unless_kept :
      ConsensusState W × Bool
      → (ConsensusState W → Call (ConsensusState W × Answer))
      → Call (ConsensusState W × Answer)
  unless_kept (s, true) k = returns (s, done)
  unless_kept (s, false) k = k s

  abbrev put_heights :
      ConsensusState W → HeightData Block × Option AddError → Call (ConsensusState W × Answer)
  put_heights s (hd, e) = returns (record s { height_datas = hd }, answer e)

  unfoldable pub receive_part : Part → ConsensusState W → Call (ConsensusState W × Answer)
  unfolding add_relay_message height_add_part
  receive_part m s =
      unless_kept (add_relay_message m.height m.round (part m) s)
        λ s'. height_add_part (block_codec env) s'.height_datas m >>= put_heights s'

  unfoldable pub receive_proposal : Proposal → ConsensusState W → Call (ConsensusState W × Answer)
  unfolding add_relay_message add_proposal calculate_proposer
  receive_proposal m s =
      unless_kept (add_relay_message m.header.height m.header.round (proposal m) s) λ s'.
        calculate_proposer env s' >>= λ i.
        add_proposal (block_codec env) env.wire s'.height_datas m (pos i) >>= put_heights s'

  unfoldable pub receive_prevote : StepVote → ConsensusState W → Call (ConsensusState W × Answer)
  unfolding add_relay_message add_prevote
  receive_prevote m s =
      unless_kept (add_relay_message m.height m.round (prevote m) s)
        λ s'. add_prevote (block_codec env) env.wire s'.height_datas m >>= put_heights s'

  unfoldable pub receive_precommit : StepVote → ConsensusState W → Call (ConsensusState W × Answer)
  unfolding add_relay_message add_precommit
  receive_precommit m s =
      unless_kept (add_relay_message m.height m.round (precommit m) s)
        λ s'. add_precommit (block_codec env) env.wire s'.height_datas m >>= put_heights s'

  -- The loop over the stored blocks of a chain, in which a B shard follows an I shard.
  unfoldable pub follow : ℕ → Bytes → Bool → ℤ → ConsensusState W → Call (ConsensusState W × Answer)
  unfolding process_i_block insert
  follow zero chain isok i s = returns (s, no_fuel)
  follow (suc fuel) chain isok i s = elim (env.block_by_height s.world i chain) [
    | none ↦ returns (s, transits)
    | some bz ↦ do
      b ← env.from_bytes bz >>= read_elem
      (s', _) ← process_i_block env b chain false isok s
      follow fuel chain isok (suc_ℤ i) (record s' { shard_height = insert chain i s'.shard_height })
  ]

  -- The signatures are not compared with the block.
  unfoldable pub receive_cross_shard_block :
      ℕ → CrossShardBlock → ConsensusState W → Call (ConsensusState W × Answer)
  unfolding verify_collective follow insert lookup block_hash
  receive_cross_shard_block fuel m s =
      let chain = m.collective_signatures.header.chain_id in
      let (b, hash) = block_hash env.hashing m.block in
      if not (is_related env chain)
      then returns (s, fails not_adjacent)
      else if env.has_block s.world hash
      then returns (s, done)
      else (do
        ok ← verify_collective env s m.collective_signatures
        let kept = insert hash (record m { block = b }) s.cross_shard_block_pool
        let w = env.set_block m.collective_signatures.header.height chain b s.world
        if not ok
            then returns (s, fails wrong_signatures)
            else if is_i env
            then returns (record s { cross_shard_block_pool = kept }, transits)
            else follow fuel chain m.collective_signatures.is_ok
                (suc_ℤ (last_height (lookup chain s.shard_height))) (record s { world = w }))

  -- A write to the nil map of accepts panics.
  abbrev take_accept :
      Option (Map MessageAccept)
      → Bytes
      → MessageAccept
      → ConsensusState W
      → Call (ConsensusState W × Answer)
  take_accept none chain m s = panics
  take_accept (some pool) chain m s =
      if contains chain pool
      then returns (s, done)
      else returns (
        record s { ma_count = pred_ℤ s.ma_count; ma_pool = some (insert chain m pool) },
        transits,
      )

  unfoldable pub receive_accept :
      MessageAccept → ConsensusState W → Call (ConsensusState W × Answer)
  unfolding verify_collective bytes_eq insert lookup
  receive_accept m s =
      if is_i env
      then returns (s, fails i_shard_accept)
      else if not (bytes_eq m.b_block_hash s.pending_cross_shard_block_hash)
      then returns (s, done)
      else (do
        ok ← verify_collective env s m.collective_signatures
        if ok
            then take_accept s.ma_pool m.collective_signatures.header.chain_id m s
            else returns (s, fails wrong_signatures))

  unfoldable pub receive_commit :
      MessageCommit → ConsensusState W → Call (ConsensusState W × Answer)
  unfolding verify_collective insert
  receive_commit m s =
      if is_b env
      then returns (s, fails b_shard_commit)
      else if mem_bytes m.b_block_hash s.committed
      then returns (s, done)
      else (do
        ok ← verify_collective env s m.collective_signatures
        returns (
            if ok
            then (record s { commit_pool = insert m.b_block_hash m s.commit_pool }, transits)
            else (s, fails wrong_signatures)))

  -- A write to the nil map of senders panics.
  abbrev take_ok :
      Option (List Bytes) → MessageOk → ConsensusState W → Call (ConsensusState W × Answer)
  take_ok none m s = panics
  take_ok (some seen) m s =
      if mem_bytes m.src_chain seen
      then returns (s, done)
      else returns
          (record s { bseen = some (m.src_chain ∷ seen); bcount = pred_ℤ s.bcount }, transits)

  unfoldable pub receive_ok : MessageOk → ConsensusState W → Call (ConsensusState W × Answer)
  unfolding add_relay_message bytes_eq
  receive_ok m s =
      unless_kept (add_relay_message m.height (pos 0) (message_ok m) s)
        λ s'. if ltb_ℤ m.height (pos s'.height) then returns (s', done) else take_ok s'.bseen m s'

  unfoldable pub receive : ℕ → Message → ConsensusState W → Call (ConsensusState W × Answer)
  unfolding receive_part receive_proposal receive_prevote receive_precommit
      receive_cross_shard_block receive_accept receive_commit receive_ok
  receive fuel (part m) s = receive_part m s
  receive fuel (proposal m) s = receive_proposal m s
  receive fuel (prevote m) s = receive_prevote m s
  receive fuel (precommit m) s = receive_precommit m s
  receive fuel (cross_shard_block m) s = receive_cross_shard_block fuel m s
  receive fuel (message_accept m) s = receive_accept m s
  receive fuel (message_commit m) s = receive_commit m s
  receive fuel (message_ok m) s = receive_ok m s
