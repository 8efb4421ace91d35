-- ===== src/Pyramid/Consensus/Receives.antt =====
-- source/pyramid/consensus/main.go: what the handlers of messages leave as it is, and the counters
-- that two of them step.
use urd_code.Pyramid.VoteSet.{read_elem}
use urd_code.Prelude.{ℕ, zero, suc, ◌≡◌, inl, inr, Bool, false, arith, Option-cases}
use urd_code.Prelude.Int.{ℤ, pos, suc_ℤ}
use urd_code.Prelude.Bytes.{Bytes}
use urd_code.Prelude.Maps.{insert, lookup, length-insert}
use urd_code.Prelude.Calls.{◌>>=◌, returns, call_cases}
use urd_code.Pyramid.Parts.{Part}
use urd_code.Pyramid.Votes.{StepVote, Proposal}
use urd_code.Pyramid.HeightData.Add.{height_add_part, add_proposal, add_prevote, add_precommit}
use urd_code.Pyramid.HeightData.Grows.{
  height_add_part-Grows, add_proposal-Grows, add_prevote-Grows, add_precommit-Grows,
}
use urd_code.Pyramid.Block.{block_hash}
use urd_code.Pyramid.Consensus.{
  Env, ConsensusState, Message, CrossShardBlock, MessageAccept, MessageCommit, MessageOk, part,
  proposal, prevote, precommit, cross_shard_block, message_accept, message_commit, message_ok,
  block_codec, calculate_proposer, add_relay_message,
}
use urd_code.Pyramid.Consensus.Process.{process_i_block}
use urd_code.Pyramid.Consensus.Messages.{
  Answer, receive_part, receive_proposal, receive_prevote, receive_precommit, follow,
  receive_cross_shard_block, receive_accept, receive_commit, receive_ok, receive, last_height,
}
use urd_code.Pyramid.Consensus.Frames.{
  SamePlace, SameOks, SameAccepts, Frame, AcceptsValid, process_i_block-Frame,
}
use urd_code.Pyramid.Consensus.Moves.{OksValid}

add_relay_message-Frame :
    {W : Type 0} (height round : ℤ) (m : Message) (s : ConsensusState W)
    → Frame s (add_relay_message height round m s).0
unfolding add_relay_message
add_relay_message-Frame height round m s = ground arith

module _ {W : Type 0} (env : Env W) where
  receive_part-Frame :
      (m : Part) (s s' : ConsensusState W) (a : Answer)
      → receive_part env m s ≡ returns (s', a)
      → Frame s s'
  unfolding receive_part
  receive_part-Frame m s s' a r =
      let (s1, kept) = add_relay_message m.height m.round (part m) s in
      elim (call_cases (height_add_part (block_codec env) s1.height_datas m)) [
        | inl ((hd, e), r1) ↦ ground (
          arith,
          add_relay_message-Frame m.height m.round (part m) s,
          height_add_part-Grows (block_codec env) s1.height_datas hd m e r1,
        )
        | inr r1 ↦ ground (arith, add_relay_message-Frame m.height m.round (part m) s)
      ]

  receive_proposal-Frame :
      (m : Proposal) (s s' : ConsensusState W) (a : Answer)
      → receive_proposal env m s ≡ returns (s', a)
      → Frame s s'
  unfolding receive_proposal
  receive_proposal-Frame m s s' a r =
      let (s1, kept) = add_relay_message m.header.height m.header.round (proposal m) s in
      elim (call_cases (calculate_proposer env s1)) [
        | inr r0 ↦
            ground (arith, add_relay_message-Frame m.header.height m.header.round (proposal m) s)
        | inl (i, r0) ↦
            elim (call_cases (add_proposal (block_codec env) env.wire s1.height_datas m (pos i))) [
              | inl ((hd, e), r1) ↦ ground (
                arith,
                add_relay_message-Frame m.header.height m.header.round (proposal m) s,
                add_proposal-Grows (block_codec env) env.wire s1.height_datas hd m (pos i) e r1,
              )
              | inr r1 ↦
                  ground
                    (arith, add_relay_message-Frame m.header.height m.header.round (proposal m) s)
            ]
      ]

  receive_prevote-Frame :
      (m : StepVote) (s s' : ConsensusState W) (a : Answer)
      → receive_prevote env m s ≡ returns (s', a)
      → Frame s s'
  unfolding receive_prevote
  receive_prevote-Frame m s s' a r =
      let (s1, kept) = add_relay_message m.height m.round (prevote m) s in
      elim (call_cases (add_prevote (block_codec env) env.wire s1.height_datas m)) [
        | inl ((hd, e), r1) ↦ ground (
          arith,
          add_relay_message-Frame m.height m.round (prevote m) s,
          add_prevote-Grows (block_codec env) env.wire s1.height_datas hd m e r1,
        )
        | inr r1 ↦ ground (arith, add_relay_message-Frame m.height m.round (prevote m) s)
      ]

  receive_precommit-Frame :
      (m : StepVote) (s s' : ConsensusState W) (a : Answer)
      → receive_precommit env m s ≡ returns (s', a)
      → Frame s s'
  unfolding receive_precommit
  receive_precommit-Frame m s s' a r =
      let (s1, kept) = add_relay_message m.height m.round (precommit m) s in
      elim (call_cases (add_precommit (block_codec env) env.wire s1.height_datas m)) [
        | inl ((hd, e), r1) ↦ ground (
          arith,
          add_relay_message-Frame m.height m.round (precommit m) s,
          add_precommit-Grows (block_codec env) env.wire s1.height_datas hd m e r1,
        )
        | inr r1 ↦ ground (arith, add_relay_message-Frame m.height m.round (precommit m) s)
      ]

  follow-Frame :
      (fuel : ℕ) (chain : Bytes) (isok : Bool) (i : ℤ) (s s' : ConsensusState W) (a : Answer)
      → follow env fuel chain isok i s ≡ returns (s', a)
      → Frame s s'
  unfolding follow
  follow-Frame zero chain isok i s s' a r = ground arith
  follow-Frame (suc fuel) chain isok i s s' a r =
      elim (Option-cases (env.block_by_height s.world i chain)) [
        | inl e ↦ ground arith
        | inr (bz, e) ↦ elim (call_cases (env.from_bytes bz >>= read_elem)) [
          | inr e1 ↦ ground arith
          | inl (b, e1) ↦ elim (call_cases (process_i_block env b chain false isok s)) [
            | inr r1 ↦ ground arith
            | inl ((s1, receipts), r1) ↦
                let s2 : ConsensusState W = record s1 {
                  shard_height = insert chain i s1.shard_height;
                } in
                ground (
                  arith,
                  process_i_block-Frame env b chain false isok s s1 receipts r1,
                  follow-Frame fuel chain isok (suc_ℤ i) s2 s' a,
                )
          ]
        ]
      ]

  receive_cross_shard_block-Frame :
      (fuel : ℕ) (m : CrossShardBlock) (s s' : ConsensusState W) (a : Answer)
      → receive_cross_shard_block env fuel m s ≡ returns (s', a)
      → Frame s s'
  unfolding receive_cross_shard_block
  receive_cross_shard_block-Frame fuel m s s' a r =
      let chain = m.collective_signatures.header.chain_id in
      let b = (block_hash env.hashing m.block).0 in
      let w = env.set_block m.collective_signatures.header.height chain b s.world in
      let i = suc_ℤ (last_height (lookup chain s.shard_height)) in
      let s1 : ConsensusState W = record s { world = w } in
      ground (arith, follow-Frame fuel chain m.collective_signatures.is_ok i s1 s' a)

  receive_commit-Frame :
      (m : MessageCommit) (s s' : ConsensusState W) (a : Answer)
      → receive_commit env m s ≡ returns (s', a)
      → Frame s s'
  unfolding receive_commit
  receive_commit-Frame m s s' a r = ground arith

  receive_accept-Valid :
      (m : MessageAccept) (s s' : ConsensusState W) (a : Answer)
      → receive_accept env m s ≡ returns (s', a)
      → AcceptsValid env s
      → SamePlace s s' × SameOks s s' × AcceptsValid env s'
  unfolding receive_accept
  receive_accept-Valid m s s' a r h = elim (Option-cases s.ma_pool) [
    | inl e ↦ ground arith
    | inr (pool, e) ↦ ground (arith, length-insert m.collective_signatures.header.chain_id m pool)
  ]

  receive_ok-Valid :
      (m : MessageOk) (s s' : ConsensusState W) (a : Answer)
      → receive_ok env m s ≡ returns (s', a)
      → OksValid env s
      → SamePlace s s' × OksValid env s' × SameAccepts s s'
  unfolding receive_ok
  receive_ok-Valid m s s' a r h =
      ground (arith, add_relay_message-Frame m.height (pos 0) (message_ok m) s)

  -- The counters are right.
  abbrev pub CountsValid : ConsensusState W → Type 0
  CountsValid s = OksValid env s × AcceptsValid env s

  pub receive-CountsValid :
      (fuel : ℕ) (m : Message) (s s' : ConsensusState W) (a : Answer)
      → receive env fuel m s ≡ returns (s', a)
      → CountsValid s
      → SamePlace s s' × CountsValid s'
  unfolding receive
  receive-CountsValid fuel (part m) s s' a r h = ground (arith, receive_part-Frame m s s' a r)
  receive-CountsValid fuel (proposal m) s s' a r h =
      ground (arith, receive_proposal-Frame m s s' a r)
  receive-CountsValid fuel (prevote m) s s' a r h = ground (arith, receive_prevote-Frame m s s' a r)
  receive-CountsValid fuel (precommit m) s s' a r h =
      ground (arith, receive_precommit-Frame m s s' a r)
  receive-CountsValid fuel (cross_shard_block m) s s' a r h =
      ground (arith, receive_cross_shard_block-Frame fuel m s s' a r)
  receive-CountsValid fuel (message_accept m) s s' a r h =
      ground (arith, receive_accept-Valid m s s' a r)
  receive-CountsValid fuel (message_commit m) s s' a r h =
      ground (arith, receive_commit-Frame m s s' a r)
  receive-CountsValid fuel (message_ok m) s s' a r h = ground (arith, receive_ok-Valid m s s' a r)
