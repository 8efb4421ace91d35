-- ===== src/Urd/Consensus/Run/Invariants.antt =====
-- source/urd/consensus: what every step of a node keeps, and when its view changes.
use mathlib.Core.Path.{subst}
use urd_code.Prelude.{
  ℕ, zero, suc, ◌≡◌, refl, inl, inr, Bool, true, false, Option, none, some, arith,
}
use urd_code.Prelude.Calls.{returns, returns-inj, >>=-eq-returns, call_cases}
use urd_code.Signer.{verify}
use urd_code.Hotstuff.Votes.{Vote}
use urd_code.Hotstuff.State.{state_add_vote, state_is_quorum}
use urd_code.Urd.Block.{Block, deref}
use urd_code.Urd.BlockData.{DataError, add_data_part, add_part_set_header, get_block}
use urd_code.Urd.BlockData.Current.{add_data_part-Collects, add_part_set_header-Collects}
use urd_code.Urd.Consensus.{
  Env, ConsensusState, Error, Step, idle, validator_wait, leader_vote, leader_wait, Message,
  Proposal, node, part, proposal, vote, cross_shard_message, send, append_block, enter_next_view,
  hash_of, fetch_block, generate_vote_for_block, commit_and_execution, verify_block, next_step,
}
use urd_code.Urd.Consensus.Propose.{do_propose}
use urd_code.Urd.Consensus.CrossShard.{communicate}
use urd_code.Urd.Consensus.Frames.{
  Keeps, Enters, Moves, Keeps-refl, Enters-Keeps, Keeps-Enters, Keeps-Moves, Enters-Moves,
  Moves-trans, append_block-Keeps, enter_next_view-Enters, Collects-Keeps,
  commit_and_execution-Keeps, state_add_vote-Keeps,
}
use urd_code.Urd.Consensus.Keeps.{send-Keeps, add_message-Keeps, communicate-Keeps}
use urd_code.Urd.Consensus.Enters.{do_propose-Enters}
use urd_code.Urd.Consensus.Run.{
  Answer, waits, goes, fails, accept, do_validate, validate_next, transition, advance, handle, take,
  answer_block, validate_got, next_of, take_header,
}

module _ {W : Type 0} (env : Env W) where
  pub accept-Enters :
      (b : Block) (s s' : ConsensusState W) → accept env b s ≡ returns s' → Enters s s'
  unfolding accept
  accept-Enters b s s' r =
      let ((s1, txs), r1, r2) = >>=-eq-returns (commit_and_execution env s) _ r in
      let s2 = enter_next_view s1 in
      subst (Enters s) (returns-inj r2) (
        Enters-Keeps s s2 (append_block b s2)
          (Keeps-Enters s s1 s2 (commit_and_execution-Keeps env s s1 txs r1)
            (enter_next_view-Enters s1))
          (append_block-Keeps b s2))

  pub Moves-refl : (s : ConsensusState W) → Moves s s
  Moves-refl s = Keeps-Moves s s (Keeps-refl s)

  answer_block-Moves :
      (ok : Bool) (b : Block) (v : Option Vote) (s s' : ConsensusState W) (e : Option Error)
      → answer_block env ok b v s ≡ returns (s', e)
      → Moves s s'
  answer_block-Moves ok b none s s' e r = ground (arith, Moves-refl s)
  answer_block-Moves false b (some w) s s' e r =
      ground
        (arith, Keeps-Moves s _ (send-Keeps env (node env.chain_id env.proposer_index) (vote w) s))
  answer_block-Moves true b (some w) s s' e r =
      let (s1, r1, r2) = >>=-eq-returns (accept env b s) _ r in
      let s2 = send (node env.chain_id env.proposer_index) (vote w) s1 in
      ground (
        arith,
        Enters-Moves s s2 (
            Enters-Keeps s s1 s2 (accept-Enters b s s1 r1)
              (send-Keeps env (node env.chain_id env.proposer_index) (vote w) s1)),
      )

  do_validate-Moves :
      (b : Block) (s s' : ConsensusState W) (e : Option Error)
      → do_validate env b s ≡ returns (s', e)
      → Moves s s'
  unfolding do_validate
  do_validate-Moves b s s' e r =
      let (ok, r1, r2) = >>=-eq-returns (verify_block env b s) _ r in
      let (last, r3, r4) = >>=-eq-returns (hash_of env (fetch_block 1 s)) _ r2 in
      let (v, r5, r6) = >>=-eq-returns (generate_vote_for_block env b last ok) _ r4 in
      answer_block-Moves ok b v s s' e r6

  validate_got-Moves :
      (b : Option Block) (e : Option DataError) (s s' : ConsensusState W) (a : Answer)
      → validate_got env (b, e) s ≡ returns (s', a)
      → Moves s s'
  validate_got-Moves b (some err) s s' a r = ground (arith, Moves-refl s)
  validate_got-Moves b none s s' a r =
      let (block, r1, r2) = >>=-eq-returns (deref b) _ r in
      let ((s1, e1), r3, r4) = >>=-eq-returns (do_validate env block s) _ r2 in
      ground (arith, do_validate-Moves block s s1 e1 r3)

  validate_next-Moves :
      (s s' : ConsensusState W) (a : Answer) → validate_next env s ≡ returns (s', a) → Moves s s'
  validate_next-Moves s s' a r =
      elim (call_cases (get_block env.codec s.hotstuff.view s.hotstuff.round s.block_data)) [
        | inl ((b, e), q) ↦ ground (arith, Moves-refl s, validate_got-Moves b e s s' a)
        | inr q ↦ ground (arith, Moves-refl s)
      ]

  pub transition-Moves :
      (step : Step) (s s' : ConsensusState W) (a : Answer)
      → transition env step s ≡ returns (s', a)
      → Moves s s'
  unfolding transition
  transition-Moves idle s s' a r = ground (arith, Moves-refl s)
  transition-Moves validator_wait s s' a r = validate_next-Moves s s' a r
  transition-Moves leader_wait s s' a r = elim (call_cases (do_propose env s)) [
    | inl ((s1, none), q) ↦
        ground (arith, Moves-refl s, Enters-Moves s s1 (do_propose-Enters env s s1 none q))
    | inl ((s1, some e), q) ↦
        ground (arith, Moves-refl s, Enters-Moves s s1 (do_propose-Enters env s s1 (some e) q))
    | inr q ↦ ground (arith, Moves-refl s)
  ]
  transition-Moves leader_vote s s' a r =
      let (quorum, r1, r2) = >>=-eq-returns (state_is_quorum s.hotstuff) _ r in
      elim (call_cases (communicate env s)) [
        | inl ((s1, none), q) ↦
            ground (arith, Moves-refl s, Keeps-Moves s s1 (communicate-Keeps env s s1 none q))
        | inl ((s1, some e), q) ↦
            ground (arith, Moves-refl s, Keeps-Moves s s1 (communicate-Keeps env s s1 (some e) q))
        | inr q ↦ ground (arith, Moves-refl s)
      ]

  pub with_step-Moves : (step : Step) (s : ConsensusState W) → Moves s (record s { step = step })
  unfolding Keeps
  with_step-Moves step s = Keeps-Moves s (record s { step = step }) (refl, λ i. i, λ k h. h, λ q. q)

  next_of-Moves :
      (s s' : ConsensusState W) (a a' : Answer) → next_of env (s, a) ≡ returns (s', a') → Moves s s'
  next_of-Moves s s' waits a' r = ground (arith, Moves-refl s)
  next_of-Moves s s' (fails e) a' r = ground (arith, Moves-refl s)
  next_of-Moves s s' goes a' r =
      let (step, r1, r2) = >>=-eq-returns (next_step env s) _ r in
      ground (arith, with_step-Moves step s)

  advance-Moves :
      (s s' : ConsensusState W) (a : Answer) → advance env s ≡ returns (s', a) → Moves s s'
  unfolding advance
  advance-Moves s s' a r =
      let ((s1, a1), r1, r2) = >>=-eq-returns (transition env s.step s) _ r in
      ground (
        arith,
        transition-Moves s.step s s1 a1 r1,
        Moves-trans s s1 s' (transition-Moves s.step s s1 a1 r1),
        next_of-Moves s1 s' a1 a r2,
      )

  pub handle-Moves :
      (fuel : ℕ) (s s' : ConsensusState W) (e : Option Error)
      → handle env fuel s ≡ returns (some (s', e))
      → Moves s s'
  unfolding handle
  handle-Moves zero s s' e r = ground arith
  handle-Moves (suc fuel) s s' e r =
      let ((s1, a), r1, r2) = >>=-eq-returns (advance env s) _ r in
      ground (
        arith,
        advance-Moves s s1 a r1,
        Moves-trans s s1 s' (advance-Moves s s1 a r1),
        handle-Moves fuel s1 s' e,
      )

  take_header-Keeps :
      (p : Proposal) (s s' : ConsensusState W) (e : Option Error)
      → take_header env p s ≡ returns (s', e)
      → Keeps s s'
  take_header-Keeps p s s' e r =
      let ((bd, e1), r1, r2) =
        >>=-eq-returns (add_part_set_header env.codec p.header p.block_header_hash s.block_data) _
          r in
      ground (
        arith,
        Collects-Keeps s bd (
            add_part_set_header-Collects env.codec p.header p.block_header_hash s.block_data bd e1
              r1),
      )

  pub take-Keeps :
      (m : Message) (s s' : ConsensusState W) (e : Option Error)
      → take env m s ≡ returns (s', e)
      → Keeps s s'
  unfolding take
  take-Keeps (part p) s s' e r = elim (call_cases (add_data_part env.codec p s.block_data)) [
    | inl ((bd, e1), q) ↦ ground (
      arith,
      Keeps-refl s,
      Collects-Keeps s bd (add_data_part-Collects env.codec p s.block_data bd e1 q),
    )
    | inr q ↦ ground (arith, Keeps-refl s)
  ]
  take-Keeps (proposal p) s s' e r = ground (
    arith,
    Keeps-refl s,
    take_header-Keeps p s s' e,
    call_cases
        (verify s.hotstuff.validator_set p.signature (env.proposal_sign_bytes p) p.proposer_index),
  )
  take-Keeps (cross_shard_message csm) s s' e r = add_message-Keeps env csm s s' e r
  take-Keeps (vote v) s s' e r =
      let ((hs, e1), r1, r2) = >>=-eq-returns (state_add_vote env.wire s.hotstuff v) _ r in
      ground (arith, state_add_vote-Keeps env s v hs e1 r1)
