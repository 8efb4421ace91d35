-- ===== src/Pyramid/Consensus/Moves.antt =====
-- source/pyramid/consensus/main.go: where the steps of a round and a new height take a node.
use urd_code.Prelude.{
  suc, ◌+◌, ◌≡◌, if◌then◌else◌, Bool, true, false, Option, none, some, List, [], ◌∷◌, arith, length,
}
use urd_code.Prelude.Int.{pos, pos_part, neg_part, suc_ℤ}
use urd_code.Prelude.Bytes.{Bytes}
use urd_code.Prelude.Calls.{Call, returns, panics, >>=-eq-returns}
use urd_code.Pyramid.VoteSet.{read_elem, get_maj23}
use urd_code.Pyramid.Parts.{Part, part_set_from_block}
use urd_code.Pyramid.Votes.{
  vote_sign_bytes, proposal_sign_bytes, new_proposal, StepVote, set_ok, new_precommit, new_prevote,
}
use urd_code.Pyramid.HeightData.{HeightData, next_height, clear_all}
use urd_code.Pyramid.HeightData.Add.{add_prevote, add_precommit}
use urd_code.Pyramid.HeightData.Grows.{Grows, add_prevote-Grows, add_precommit-Grows}
use urd_code.Pyramid.Block.{Block, block_hash}
use urd_code.Pyramid.Consensus.{
  Env, ConsensusState, Message, block_codec, part, proposal, send_internal, step_propose, next,
  is_proposer, is_i,
}
use urd_code.Pyramid.Consensus.Judge.{cast_prevote, do_propose, do_prevote, judge}
use urd_code.Pyramid.Consensus.Process.{process, after_execution, do_precommit}
use urd_code.Pyramid.Consensus.Create.{
  send_parts, broadcast_block, create_i_block_txs, make_block, clocked, headed,
  create_block_and_broadcast, enter_new_round, advanced, enter_new_height,
}
use urd_code.Pyramid.Consensus.Frames.{
  SameOks, SameAccepts, Frame, AcceptsValid, process_i_block-Frame, process_b_block-AcceptsValid,
}

-- One step on, in the same round of the same height.
abbrev pub StepsOn : {W : Type 0} → ConsensusState W → ConsensusState W → Type 0
StepsOn s s' =
    (s'.height ≡ s.height)
    × (s'.round ≡ s.round)
    × (s'.step ≡ suc s.step)
    × Grows s.height_datas s'.height_datas
    × SameOks s s'

if_returns {ℓ} :
    {A : Type ℓ} (b : Bool) (c : Call A) (a : A)
    → (if b then c else panics) ≡ returns a
    → c ≡ returns a
if_returns true c a r = r
if_returns false c a r = absurd (ground arith)

module _ {W : Type 0} (env : Env W) where
  cast_prevote-StepsOn :
      (s s' : ConsensusState W) (v : StepVote)
      → s.step ≡ 3
      → cast_prevote env s v ≡ returns s'
      → StepsOn s s' × SameAccepts s s'
  unfolding cast_prevote next
  cast_prevote-StepsOn s s' v h r =
      let (sig, r1, r2) = >>=-eq-returns (read_elem (env.sign (vote_sign_bytes env.wire v))) _ r in
      let signed : StepVote = record v { signature = sig } in
      let ((hd, e), r3, r4) =
        >>=-eq-returns (add_prevote (block_codec env) env.wire s.height_datas signed) _ r2 in
      ground (arith, add_prevote-Grows (block_codec env) env.wire s.height_datas hd signed e r3)

  abbrev hashed : Block → Block × Bytes
  hashed b = block_hash env.hashing b

  abbrev proposed : ConsensusState W → Block → ConsensusState W
  proposed s b = record s {
    height_datas = record (s.height_datas) { block = some (hashed b).0 };
    block_hash = (hashed b).1;
  }

  pub do_propose-StepsOn :
      (s s' : ConsensusState W)
      → s.step ≡ 3
      → do_propose env s ≡ returns s'
      → StepsOn s s' × SameAccepts s s'
  unfolding do_propose
  do_propose-StepsOn s s' h r =
      let (b, r1, r2) = >>=-eq-returns (read_elem s.height_datas.block) _ r in
      let ((w, flag, pvote), r3, r4) =
        >>=-eq-returns (judge env (proposed s b) (hashed b).0) _ r2 in
      let s1 : ConsensusState W = record (proposed s b) { world = w } in
      let vote =
        set_ok pvote
          (new_prevote (pos s.height) (pos s.round) (hashed b).1 (pos env.signer_index)) in
      cast_prevote-StepsOn s1 s' vote h (if_returns flag (cast_prevote env s1 vote) s' r4)

  pub do_prevote-StepsOn :
      (s s' : ConsensusState W)
      → s.step ≡ 4
      → do_prevote env s ≡ returns s'
      → StepsOn s s' × SameAccepts s s'
  unfolding do_prevote next
  do_prevote-StepsOn s s' h r =
      let (hash, ok) = get_maj23 s.height_datas.prevotes in
      let vote =
        set_ok ok (new_precommit (pos s.height) (pos s.round) hash (pos env.signer_index)) in
      let (sig, r1, r2) =
        >>=-eq-returns (read_elem (env.sign (vote_sign_bytes env.wire vote))) _ r in
      let signed : StepVote = record vote { signature = sig } in
      let ((hd, e), r3, r4) =
        >>=-eq-returns (add_precommit (block_codec env) env.wire s.height_datas signed) _ r2 in
      ground (arith, add_precommit-Grows (block_codec env) env.wire s.height_datas hd signed e r3)

  pub do_precommit-StepsOn :
      (s s' : ConsensusState W)
      → s.step ≡ 5
      → AcceptsValid env s
      → do_precommit env s ≡ returns s'
      → StepsOn s s' × AcceptsValid env s'
  unfolding do_precommit after_execution next
  do_precommit-StepsOn s s' h valid r =
      let (b, r1, r2) = >>=-eq-returns (read_elem s.height_datas.block) _ r in
      let ((s1, receipts), r3, r4) = >>=-eq-returns (process env b s) _ r2 in
      ground (
        arith,
        process_i_block-Frame env b s.height_datas.my_chain_id true false s s1 receipts,
        process_b_block-AcceptsValid env b s s1 receipts,
      )

  send_parts-Frame :
      (parts : List (Option Part)) (s : ConsensusState W) → Frame s (send_parts env parts s)
  unfolding send_parts
  send_parts-Frame [] s = ground arith
  send_parts-Frame (none ∷ parts) s = send_parts-Frame parts s
  send_parts-Frame (some p ∷ parts) s =
      let s1 = send_internal (part p) s in ground (arith, send_parts-Frame parts s1)

  broadcast_block-Frame :
      (s s' : ConsensusState W) (b : Block) → broadcast_block env s b ≡ returns s' → Frame s s'
  unfolding broadcast_block
  broadcast_block-Frame s s' b r =
      let (ps, r1, r2) =
        >>=-eq-returns (part_set_from_block (block_codec env) b env.max_part_size (pos s.round)) _
          r in
      let p0 = new_proposal ps.header (pos env.signer_index) ps.block_header_hash in
      let (sig, r3, r4) =
        >>=-eq-returns (read_elem (env.sign (proposal_sign_bytes env.wire p0))) _ r2 in
      ground (
        arith,
        send_parts-Frame ps.parts (
            send_internal (proposal (record p0 { signature = sig })) (record s {
              height_datas = record (s.height_datas) {
                block = some (block_hash env.hashing b).0;
                part_set = some ps;
                proposal = some (record p0 { signature = sig });
              };
            })),
      )

  create-Frame :
      (s s' : ConsensusState W) → create_block_and_broadcast env s ≡ returns s' → Frame s s'
  unfolding create_block_and_broadcast create_i_block_txs
  create-Frame s s' r =
      let ((s1, b), r1, r2) = >>=-eq-returns (make_block env s) _ r in
      ground (arith, broadcast_block-Frame (clocked env s1) s' (headed env s1 b) r2)

  create_if-Frame :
      (mine : Bool) (s s' : ConsensusState W)
      → (if mine then create_block_and_broadcast env s else returns s) ≡ returns s'
      → Frame s s'
  create_if-Frame true s s' r = create-Frame s s' r
  create_if-Frame false s s' r = ground arith

  enter_new_round-Frame :
      (s s' : ConsensusState W) (ms : List Message)
      → enter_new_round env s ≡ returns (s', ms)
      → Frame (record s { step = step_propose }) s'
  unfolding enter_new_round
  enter_new_round-Frame s s' ms r =
      let s0 : ConsensusState W = record s { step = step_propose } in
      let (mine, r1, r2) = >>=-eq-returns (is_proposer env s0) _ r in
      let (s1, r3, r4) =
        >>=-eq-returns (if mine then create_block_and_broadcast env s0 else returns s0) _ r2 in
      ground (arith, create_if-Frame mine s0 s1 r3)

  -- The counter of the OK messages: 0 where no senders are kept, and what is still missing of the
  -- related shards where they are, which is in an I shard.
  abbrev pub OksValid : ConsensusState W → Type 0
  OksValid s = elim s.bseen [
    | none ↦ s.bcount ≡ pos 0
    | some seen ↦
        (is_i env ≡ true)
        × (pos_part s.bcount + length seen ≡ length env.related_shards + neg_part s.bcount)
  ]

  -- A new height, with no step passed and no vote taken.
  abbrev pub Enters : ConsensusState W → ConsensusState W → Type 0
  Enters s s' =
      (s'.height ≡ suc s.height)
      × (s'.round ≡ 0)
      × (s'.step ≡ step_propose)
      × (s'.height_datas.height ≡ suc_ℤ s.height_datas.height)
      × (s'.height_datas.round ≡ pos 0)
      × (s'.height_datas.pass_step ≡ 1)
      × (OksValid s → OksValid s')
      × SameAccepts s s'

  advanced-Advances :
      (s : ConsensusState W)
      → ((advanced env s).height ≡ suc s.height)
        × ((advanced env s).round ≡ 0)
        × ((advanced env s).height_datas ≡ s.height_datas)
        × (OksValid s → OksValid (advanced env s))
        × SameAccepts s (advanced env s)
  unfolding advanced next
  advanced-Advances s = ground arith

  next_height-resets :
      (h h' : HeightData Block)
      → next_height h ≡ returns h'
      → (h'.height ≡ suc_ℤ h.height) × (h'.round ≡ pos 0) × (h'.pass_step ≡ 1)
  unfolding next_height clear_all
  next_height-resets h h' r = ground arith

  pub enter_new_height-Enters :
      (s s' : ConsensusState W) (ms : List Message)
      → enter_new_height env s ≡ returns (s', ms)
      → Enters s s'
  unfolding enter_new_height
  enter_new_height-Enters s s' ms r =
      let s1 = advanced env s in
      let (hd, r1, r2) = >>=-eq-returns (next_height s1.height_datas) _ r in
      let s2 : ConsensusState W = record s1 { height_datas = hd } in
      ground (
        arith,
        advanced-Advances s,
        next_height-resets s1.height_datas hd r1,
        enter_new_round-Frame s2 s' ms r2,
      )
