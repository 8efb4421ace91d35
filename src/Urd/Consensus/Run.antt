-- ===== src/Urd/Consensus/Run.antt =====
-- source/urd/consensus/state.go and state_transition.go: the state transition, which goes on by itself
-- until a step waits, and the entry points. It runs on fuel; `none` says that it was not enough.
pub mod Invariants
pub mod Reach
pub mod Ends
pub mod Answers
use urd_code.Prelude.{
  ℕ, zero, suc, Bool, true, false, not, ◌&&◌, ◌||◌, Option, none, some, List, [], ◌∷◌,
  if◌then◌else◌, ◌==◌, length,
}
use urd_code.Prelude.Int.{ℤ, pos, eqb_ℤ, ltb_ℤ, is_negative}
use urd_code.Prelude.Bytes.{Bytes, bytes_eq}
use urd_code.Prelude.Maps.{Map, insert}
use urd_code.Prelude.Calls.{Call, returns, panics, ◌>>=◌}
use urd_code.Signer.{Verifier, verify}
use urd_code.Hotstuff.Votes.{Vote, validate_basic}
use urd_code.Hotstuff.State.{new_state, state_is_quorum, state_add_vote}
use urd_code.Pyramid.Parts.{Proof, validate_part, validate_header}
use urd_code.Urd.Block.{Block, deref}
use urd_code.Urd.Block.Check.{validate_message}
use urd_code.Urd.BlockData.{
  BlockData, DataError, new_block_data, is_block_complete, is_cross_shard_complete, get_block,
  add_data_part, add_part_set_header,
}
use urd_code.Urd.Consensus.{
  Proposal, Env, ConsensusState, Message, Step, Error, idle, validator_wait, leader_vote,
  leader_wait, wrong_chain, bad_signature, not_signed, not_valid, data_error, vote_error, part,
  proposal, cross_shard_message, vote, node, is_proposer, next_step, hash_of, fetch_block,
  append_block, send, enter_next_view, verify_block, generate_vote_for_block, commit_and_execution,
}
use urd_code.Urd.Consensus.Propose.{do_propose}
use urd_code.Urd.Consensus.CrossShard.{add_message, communicate}

-- A step waits, fails, or goes on.
pub data Answer : Type 0 where
  waits goes : Answer
  fails : Error → Answer

abbrev pub answer_of : {W : Type 0} → ConsensusState W × Option Error → ConsensusState W × Answer
answer_of (s, none) = (s, goes)
answer_of (s, some e) = (s, fails e)

abbrev pub hash_size : ℕ
hash_size = 32

-- `lastHash[id] = nil` for every shard.
unfoldable pub no_hashes : List Bytes → Map Bytes
unfolding insert
no_hashes [] = []
no_hashes (id ∷ ids) = insert id [] (no_hashes ids)

module _ {W : Type 0} (env : Env W) where
  -- The next view, once a block is accepted.
  unfoldable pub accept : Block → ConsensusState W → Call (ConsensusState W)
  unfolding commit_and_execution enter_next_view
  accept b s = do
    (s1, _) ← commit_and_execution env s
    returns (append_block b (enter_next_view s1))

  -- The vote on a block is sent in any case; the next view begins if the block is accepted.
  abbrev pub answer_block :
      Bool → Block → Option Vote → ConsensusState W → Call (ConsensusState W × Option Error)
  answer_block ok b none s = returns (s, some not_signed)
  answer_block ok b (some w) s = do
    s' ← if ok then accept b s else returns s
    returns (send (node env.chain_id env.proposer_index) (vote w) s', none)

  unfoldable pub do_validate : Block → ConsensusState W → Call (ConsensusState W × Option Error)
  unfolding verify_block hash_of generate_vote_for_block accept
  do_validate b s = do
    ok ← verify_block env b s
    last ← hash_of env (fetch_block 1 s)
    v ← generate_vote_for_block env b last ok
    answer_block ok b v s

  abbrev pub validate_got :
      Option Block × Option DataError → ConsensusState W → Call (ConsensusState W × Answer)
  validate_got (b, some err) s = returns (s, fails (data_error err))
  validate_got (b, none) s = do block ← deref b; r ← do_validate block s; returns (answer_of r)

  abbrev pub validate_next : ConsensusState W → Call (ConsensusState W × Answer)
  validate_next s =
      if is_block_complete s.hotstuff.view s.hotstuff.round s.block_data
      then (do
        got ← get_block env.codec s.hotstuff.view s.hotstuff.round s.block_data
        validate_got got s)
      else returns (s, waits)

  -- The switch of `handle_state_transition`.
  unfoldable pub transition : Step → ConsensusState W → Call (ConsensusState W × Answer)
  unfolding is_block_complete get_block do_validate do_propose state_is_quorum communicate
  transition idle s = returns (s, goes)
  transition validator_wait s = validate_next s
  transition leader_wait s =
      if is_cross_shard_complete s.block_data
      then (do r ← do_propose env s; returns (answer_of r))
      else returns (s, waits)
  transition leader_vote s = do
    q ← state_is_quorum s.hotstuff
    if q then (do r ← communicate env s; returns (answer_of r)) else returns (s, waits)

  -- The leader stops after these views, with a panic.
  abbrev pub must_stop : ConsensusState W → Bool
  must_stop s =
      is_proposer env
      && (env.enable_pipeline && ltb_ℤ (pos 100) s.hotstuff.view || ltb_ℤ (pos 600) s.hotstuff.view)

  -- The step after a transition that goes on.
  abbrev pub next_of : ConsensusState W × Answer → Call (ConsensusState W × Answer)
  next_of (s, waits) = returns (s, waits)
  next_of (s, fails e) = returns (s, fails e)
  next_of (s, goes) = do
    step ← next_step env s
    let s' = record s { step = step }
    if must_stop s' then panics else returns (s', goes)

  unfoldable pub advance : ConsensusState W → Call (ConsensusState W × Answer)
  unfolding transition next_step
  advance s = do r ← transition s.step s; next_of r

  -- `handle_state_transition`
  unfoldable pub handle : ℕ → ConsensusState W → Call (Option (ConsensusState W × Option Error))
  unfolding advance
  handle zero s = returns none
  handle (suc fuel) s = do
    (s1, a) ← advance s
    elim a [
      | waits ↦ returns (some (s1, none))
      | fails e ↦ returns (some (s1, some e))
      | goes ↦ handle fuel s1
    ]

  -- Where a message is taken without an error, the state transition follows.
  abbrev pub handle_taken :
      ℕ → ConsensusState W × Option Error → Call (Option (ConsensusState W × Option Error))
  handle_taken fuel (s, none) = handle fuel s
  handle_taken fuel (s, some e) = returns (some (s, some e))

  abbrev pub collected :
      ConsensusState W → BlockData → Option DataError → ConsensusState W × Option Error
  collected s bd e =
      (record s { block_data = bd }, elim e [ none ↦ none | some err ↦ some (data_error err) ])

  abbrev pub take_header : Proposal → ConsensusState W → Call (ConsensusState W × Option Error)
  take_header p s = do
    (bd, e) ← add_part_set_header env.codec p.header p.block_header_hash s.block_data
    returns (collected s bd e)

  -- What the branches of `doMessage` do before that.
  unfoldable pub take : Message → ConsensusState W → Call (ConsensusState W × Option Error)
  unfolding add_data_part add_part_set_header add_message state_add_vote verify bytes_eq
  take (part p) s =
      if not (bytes_eq p.chain_id env.chain_id)
      then returns (s, some wrong_chain)
      else (do (bd, e) ← add_data_part env.codec p s.block_data; returns (collected s bd e))
  take (proposal p) s =
      if not (bytes_eq p.header.chain_id env.chain_id) then returns (s, some wrong_chain) else (do
        signed ←
            verify s.hotstuff.validator_set p.signature (env.proposal_sign_bytes p) p.proposer_index
        if not signed then returns (s, some bad_signature) else take_header p s)
  take (cross_shard_message csm) s = add_message env csm s
  take (vote v) s = do
    (hs, e) ← state_add_vote env.wire s.hotstuff v
    returns (record s { hotstuff = hs }, elim e [ none ↦ none | some err ↦ some (vote_error err) ])

  unfoldable pub do_message :
      ℕ → Message → ConsensusState W → Call (Option (ConsensusState W × Option Error))
  unfolding take handle
  do_message fuel m s = do r ← take m s; handle_taken fuel r

  -- `ValidateBasic` of what is received; the test of a Merkle proof is a parameter.
  unfoldable pub is_basic : (Proof → Bool) → Message → Call Bool
  unfolding validate_part validate_header validate_message validate_basic
  is_basic is_basic_proof (part p) =
      returns (elim (validate_part is_basic_proof p) [ none ↦ true | some _ ↦ false ])
  is_basic is_basic_proof (proposal p) = returns (
      not (is_negative p.proposer_index)
      && length p.block_header_hash == hash_size
      && elim (validate_header hash_size p.header) [ none ↦ true | some _ ↦ false ])
  is_basic is_basic_proof (cross_shard_message csm) = validate_message env.codec.hashing csm
  is_basic is_basic_proof (vote v) =
      returns (elim (validate_basic v) [ none ↦ true | some _ ↦ false ])

  -- `Receive`, after the message was decoded.
  unfoldable pub receive :
      (Proof → Bool)
      → ℕ
      → Message
      → ConsensusState W
      → Call (Option (ConsensusState W × Option Error))
  unfolding is_basic do_message
  receive is_basic_proof fuel m s = do
    ok ← is_basic is_basic_proof m
    if ok then do_message fuel m s else returns (some (s, some not_valid))

  -- `NewState`, for keys that deserialise.
  unfoldable pub new_consensus_state : ℤ → ℤ → Verifier → List ℕ → W → ConsensusState W
  unfolding new_state new_block_data no_hashes
  new_consensus_state view round validators weights world = record {
    hotstuff = new_state view round env.signer_index validators weights;
    step = idle;
    block_data = new_block_data view round (no_hashes env.shard_ids) [];
    block_pool = [];
    world = world;
    sent = [];
  }

  -- `Start`: at view 0 an error of the proposal panics.
  unfoldable pub start : ℕ → ConsensusState W → Call (Option (ConsensusState W × Option Error))
  unfolding do_propose enter_next_view handle
  start fuel s =
      if eqb_ℤ s.hotstuff.view (pos 0)
      then if is_proposer env
        then (do
          (s', e) ← do_propose env s
          elim e [
            | none ↦ returns (some (record s' { step = leader_vote }, none))
            | some _ ↦ panics
          ])
        else returns (some (record (enter_next_view s) { step = validator_wait }, none))
      else handle fuel s
