-- ===== src/Urd/Consensus/Enters.antt =====
-- source/urd/consensus/state_transition.go: a proposal enters the next view, once.
use mathlib.Core.Path.{subst}
use urd_code.Prelude.{
  ◌≡◌, refl, ap, inl, inr, true, Option, none, some, map, List, [], ◌∷◌, arith, Option-cases,
}
use urd_code.Prelude.Bytes.{Bytes}
use urd_code.Prelude.Calls.{returns, returns-inj, >>=-eq-returns}
use urd_code.Hotstuff.Votes.{Vote}
use urd_code.Hotstuff.State.{set_hash, state_add_vote, state_is_quorum}
use urd_code.Pyramid.Parts.{Part, PartSet}
use urd_code.Urd.Block.{Block, deref, hashed}
use urd_code.Urd.BlockData.{BlockData, DataError, add_block}
use urd_code.Urd.BlockData.Current.{Collects, add_block-Collects}
use urd_code.Urd.Consensus.{
  Env, ConsensusState, Error, shard, part, proposal, send, append_block, enter_next_view, hash_of,
  fetch_block, generate_vote_for_block, commit_and_execution,
}
use urd_code.Urd.Consensus.Propose.{
  add_agg_sig, add_txs, add_intention, add_certificate, complete_block, make_block, send_parts,
  send_proposal, new_proposal, send_and_vote, propose_added, vote_own, propose_block, do_propose,
  part_size,
}
use urd_code.Urd.Consensus.Frames.{
  Keeps, Enters, Keeps-refl, Keeps-trans, Enters-Keeps, Keeps-Enters, append_block-Keeps,
  enter_next_view-Enters, Collects-Keeps, commit_and_execution-Keeps, with_hotstuff-Keeps,
  state_add_vote-Keeps,
}
use urd_code.Urd.Consensus.Keeps.{send-Keeps, world-Keeps}

module _ {W : Type 0} (env : Env W) where
  op_txs-Keeps :
      (op_txs : List (List Bytes)) (s : ConsensusState W)
      → Keeps s (record s { block_data = record (s.block_data) { j_1_cross_shard_txs = op_txs } })
  unfolding Keeps
  op_txs-Keeps op_txs s = (refl, λ i. i, λ k h. h, λ q. q)

  complete_block-Keeps :
      (op_txs : List (List Bytes)) (s s' : ConsensusState W) (b : Block) (made : Option Block)
      → complete_block env op_txs s b ≡ returns (s', made)
      → Keeps s s'
  unfolding complete_block
  complete_block-Keeps op_txs s s' b made r =
      let s1 = record s { block_data = record (s.block_data) { j_1_cross_shard_txs = op_txs } } in
      let b0 = record b { opt = map env.codec.hashing.merkle op_txs } in
      let (b1, r1, r2) = >>=-eq-returns (add_intention env s1 b0) _ r in
      let (b2, r3, r4) = >>=-eq-returns (add_certificate env s1 b1) _ r2 in
      let (b3, r5, r6) = >>=-eq-returns (hashed env.codec.hashing b2) _ r4 in
      subst (Keeps s) (ap (λ (x : ConsensusState W × Option Block). x.0) (returns-inj r6))
        (op_txs-Keeps op_txs s)

  make_block-Keeps :
      (op_txs : List (List Bytes)) (s s' : ConsensusState W) (made : Option Block)
      → make_block env op_txs s ≡ returns (s', made)
      → Keeps s s'
  unfolding make_block
  make_block-Keeps op_txs s s' made r =
      let (last, r1, r2) = >>=-eq-returns (hash_of env (fetch_block 1 s)) _ r in
      let s1 = record s { world = (env.now s.world).0 } in
      let (b, r3, r4) = >>=-eq-returns (add_agg_sig env s1 _) _ r2 in
      elim (Option-cases (add_txs env s1 b)) [
        | inl q ↦ ground (arith, world-Keeps env s1.world s)
        | inr (b1, q) ↦ ground (
          arith,
          world-Keeps env s1.world s,
          Keeps-trans s s1 s',
          complete_block-Keeps op_txs s1 s' b1 made,
        )
      ]

  send_parts-Keeps :
      (ps : List (Option Part)) (s : ConsensusState W) → Keeps s (send_parts env ps s)
  send_parts-Keeps [] s = Keeps-refl s
  send_parts-Keeps (none ∷ ps) s = send_parts-Keeps ps s
  send_parts-Keeps (some p ∷ ps) s =
      let s1 = send (shard env.chain_id) (part p) s in
      Keeps-trans s s1 (send_parts env ps s1) (send-Keeps env (shard env.chain_id) (part p) s)
        (send_parts-Keeps ps s1)

  send_proposal-Keeps :
      (ps : PartSet) (s s' : ConsensusState W) → send_proposal env ps s ≡ returns s' → Keeps s s'
  send_proposal-Keeps ps s s' r =
      let (sig, r1, r2) =
        >>=-eq-returns (deref (env.sign (env.proposal_sign_bytes (new_proposal env ps [])))) _ r in
      let s1 = send (shard env.chain_id) (proposal (new_proposal env ps sig)) s in
      subst (Keeps s) (returns-inj r2) (
        Keeps-trans s s1 (send_parts env ps.parts s1)
          (send-Keeps env (shard env.chain_id) (proposal (new_proposal env ps sig)) s)
          (send_parts-Keeps ps.parts s1))

  vote_own-Keeps :
      (b : Block) (v : Option Vote) (s s' : ConsensusState W) (e : Option Error)
      → vote_own env b v s ≡ returns (s', e)
      → Keeps s s'
  vote_own-Keeps b none s s' e r = ground (arith, Keeps-refl s)
  vote_own-Keeps b (some v) s s' e r =
      let ((hs, e1), r1, r2) = >>=-eq-returns (state_add_vote env.wire s.hotstuff v) _ r in
      let s1 = record s { hotstuff = hs } in
      let w = env.update_cross_shard b.cross_shard_txs (env.update b.p_txs s.world) in
      let s2 = record s1 { world = w } in
      let added = state_add_vote-Keeps env s v hs e1 r1 in
      ground (
        arith,
        added,
        Keeps-trans s s2 (append_block b s2) (Keeps-trans s s1 s2 added (world-Keeps env w s1))
            (append_block-Keeps b s2),
      )

  set_hash-Keeps :
      (hash : Bytes) (s : ConsensusState W)
      → Keeps s (record s { hotstuff = set_hash s.hotstuff hash })
  unfolding set_hash state_is_quorum
  set_hash-Keeps hash s =
      with_hotstuff-Keeps s (set_hash s.hotstuff hash) refl refl (λ q. ground arith)

  send_and_vote-Keeps :
      (b : Block) (ps : PartSet) (s s' : ConsensusState W) (e : Option Error)
      → send_and_vote env b ps s ≡ returns (s', e)
      → Keeps s s'
  send_and_vote-Keeps b ps s s' e r =
      let s1 = record s { hotstuff = set_hash s.hotstuff b.header.hash } in
      let (s2, r1, r2) = >>=-eq-returns (send_proposal env ps s1) _ r in
      let (v, r3, r4) =
        >>=-eq-returns (generate_vote_for_block env b b.header.hash_pointer true) _ r2 in
      Keeps-trans s s1 s' (set_hash-Keeps b.header.hash s)
        (Keeps-trans s1 s2 s' (send_proposal-Keeps ps s1 s2 r1) (vote_own-Keeps b v s2 s' e r4))

  propose_added-Keeps :
      (b : Block) (bd : BlockData) (ps : PartSet) (err : Option DataError) (s s' : ConsensusState W)
      (e : Option Error)
      → propose_added env b (bd, ps, err) s ≡ returns (s', e)
      → Collects s.block_data bd
      → Keeps s s'
  propose_added-Keeps b bd ps (some err) s s' e r h = ground (arith, Collects-Keeps s bd h)
  propose_added-Keeps b bd ps none s s' e r h =
      let s1 = record s { block_data = bd } in
      Keeps-trans s s1 s' (Collects-Keeps s bd h) (send_and_vote-Keeps b ps s1 s' e r)

  propose_block-Keeps :
      (made : Option Block) (s s' : ConsensusState W) (e : Option Error)
      → propose_block env made s ≡ returns (s', e)
      → Keeps s s'
  unfolding propose_block
  propose_block-Keeps made s s' e r =
      let (b, r1, r2) = >>=-eq-returns (deref made) _ r in
      let ((bd, ps, e1), r3, r4) =
        >>=-eq-returns (add_block env.codec b part_size s.hotstuff.round s.block_data) _ r2 in
      propose_added-Keeps b bd ps e1 s s' e r4
        (add_block-Collects env.codec b part_size s.hotstuff.round s.block_data bd ps e1 r3)

  pub do_propose-Enters :
      (s s' : ConsensusState W) (e : Option Error)
      → do_propose env s ≡ returns (s', e)
      → Enters s s'
  unfolding do_propose
  do_propose-Enters s s' e r =
      let ((s1, op_txs), r1, r2) = >>=-eq-returns (commit_and_execution env s) _ r in
      let s2 = enter_next_view s1 in
      let ((s3, made), r3, r4) = >>=-eq-returns (make_block env op_txs s2) _ r2 in
      Enters-Keeps s s3 s'
        (Enters-Keeps s s2 s3
          (Keeps-Enters s s1 s2 (commit_and_execution-Keeps env s s1 op_txs r1)
            (enter_next_view-Enters s1))
          (make_block-Keeps op_txs s2 s3 made r3))
        (propose_block-Keeps made s3 s' e r4)
