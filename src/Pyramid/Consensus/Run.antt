-- ===== src/Pyramid/Consensus/Run.antt =====
-- source/pyramid/consensus/main.go: the state transition, which goes on by itself until a step waits,
-- and the entry points. A shard that can decide alone never stops, so the transition runs on fuel;
-- `none` says that it was not enough.
pub mod Invariants
pub mod Starts
pub mod Reach
pub mod CrossShard
pub mod Receive
mod Tests
use urd_code.Prelude.{
  ℕ, zero, suc, Bool, true, false, not, Option, none, some, List, [], ◌∷◌, if◌then◌else◌, ◌==◌,
  length,
}
use urd_code.Prelude.Int.{ℤ, pos, negsuc, eqb_ℤ, ltb_ℤ}
use urd_code.Prelude.Bytes.{Bytes}
use urd_code.Prelude.Maps.{Map, lookup}
use urd_code.Prelude.Calls.{Call, returns, panics, ◌>>=◌}
use urd_code.Signer.{Verifier}
use urd_code.Pyramid.HeightData.{
  HeightData, Peer, finish_proposal, finish_prevote, finish_precommit, new_height_data,
}
use urd_code.Pyramid.Block.{Block}
use urd_code.Pyramid.Consensus.{
  Env, ConsensusState, Message, step_new_height, step_propose, step_prevote, step_precommit,
  step_commit, is_i,
}
use urd_code.Pyramid.Consensus.Judge.{do_propose, do_prevote}
use urd_code.Pyramid.Consensus.Process.{do_precommit}
use urd_code.Pyramid.Consensus.Create.{enter_new_height, do_commit}
use urd_code.Pyramid.Consensus.Messages.{
  Answer, MessageError, done, fails, transits, no_fuel, receive, last_height,
}

-- The node goes on from another state, with messages to handle first, or waits.
pub data Transition (W : Type 0) : Type 0 where
  waits : ConsensusState W → Transition W
  goes : ConsensusState W → List Message → Transition W

module _ {W : Type 0} (env : Env W) where
  -- What a `Finish` method answers: the step is done, or the node waits.
  abbrev if_finished :
      ConsensusState W
      → (ConsensusState W → Call (ConsensusState W))
      → HeightData Block × Bool
      → Call (Transition W)
  if_finished s act (hd, false) = returns (waits (record s { height_datas = hd }))
  if_finished s act (hd, true) = do s' ← act (record s { height_datas = hd }); returns (goes s' [])

  -- Whether the heights of the related shards are behind.
  unfoldable pub is_behind : List Bytes → ConsensusState W → Bool
  unfolding lookup
  is_behind [] s = false
  is_behind (chain ∷ chains) s =
      if ltb_ℤ (last_height (lookup chain s.shard_height)) (pos s.height)
      then true
      else is_behind chains s

  abbrev may_commit : ConsensusState W → Bool
  may_commit s = if is_i env then eqb_ℤ s.bcount (pos 0) else not (is_behind env.related_shards s)

  abbrev pub commit_or_wait : ConsensusState W → Call (Transition W)
  commit_or_wait s =
      if may_commit s
      then (do (s', messages) ← do_commit env s; returns (goes s' messages))
      else returns (waits s)

  unfoldable pub transition : ConsensusState W → Call (Transition W)
  unfolding finish_proposal finish_prevote finish_precommit do_propose do_prevote do_precommit
      do_commit is_behind
  transition s =
      if s.step == step_propose
      then finish_proposal s.height_datas >>= if_finished s (do_propose env)
      else if s.step == step_prevote
      then finish_prevote s.height_datas >>= if_finished s (do_prevote env)
      else if s.step == step_precommit
      then finish_precommit s.height_datas >>= if_finished s (do_precommit env)
      else if s.step == step_commit
      then commit_or_wait s
      else returns (waits s)

  -- A run that has fuel left goes on.
  infixl 5 ◌then_run◌
  abbrev ◌then_run◌ :
      Call (Option (ConsensusState W))
      → (ConsensusState W → Call (Option (ConsensusState W)))
      → Call (Option (ConsensusState W))
  m then_run k = m >>= λ r. elim r [ none ↦ returns none | some s ↦ k s ]

  -- `doMessage`, with the state transition that follows as an argument. Its answer is dropped.
  abbrev take_message :
      ℕ
      → (ConsensusState W → Call (Option (ConsensusState W)))
      → Message
      → ConsensusState W
      → Call (Option (ConsensusState W))
  take_message fuel rest m s = do
    (s', a) ← receive env fuel m s
    elim a [
      | done ↦ returns (some s')
      | fails _ ↦ returns (some s')
      | transits ↦ rest s'
      | no_fuel ↦ returns none
    ]

  unfoldable pub take_messages :
      ℕ
      → (ConsensusState W → Call (Option (ConsensusState W)))
      → List Message
      → ConsensusState W
      → Call (Option (ConsensusState W))
  unfolding receive
  take_messages fuel rest [] s = returns (some s)
  take_messages fuel rest (m ∷ ms) s =
      take_message fuel rest m s then_run take_messages fuel rest ms

  unfoldable pub handle_state_transition : ℕ → ConsensusState W → Call (Option (ConsensusState W))
  unfolding transition take_messages
  handle_state_transition zero s = returns none
  handle_state_transition (suc fuel) s = do
    t ← transition s
    elim t [
      | waits s' ↦ returns (some s')
      | goes s' messages ↦
          take_messages fuel (handle_state_transition fuel) messages s'
          then_run handle_state_transition fuel
    ]

  unfoldable pub do_message : ℕ → Message → ConsensusState W → Call (Option (ConsensusState W))
  unfolding receive handle_state_transition
  do_message fuel m s = take_message fuel (handle_state_transition fuel) m s

  unfoldable pub start : ℕ → ConsensusState W → Call (Option (ConsensusState W))
  unfolding enter_new_height take_messages handle_state_transition
  start fuel s =
      if s.height == 0
      then (do
        (s', messages) ← enter_new_height env s
        take_messages fuel (handle_state_transition fuel) messages s')
      else handle_state_transition fuel s

module _ {W : Type 0} where
  unfoldable pub new_consensus_state :
      (List Bytes → Option Verifier) → Bytes → Map (List Peer) → W → ℕ → Call (ConsensusState W)
  unfolding new_height_data
  new_consensus_state new_verifier chain peer_list world now = do
    hd ← new_height_data new_verifier chain (pos 0) peer_list
    returns (record {
      height = 0;
      round = 0;
      step = step_new_height;
      height_datas = hd;
      relay_message_channel = [];
      last_block_time = now;
      last_block_hash = [];
      last_receipt_root = [];
      last_state_root = [];
      block_hash = [];
      cross_shard_block_pool = [];
      commit_pool = [];
      committed = [];
      bcount = pos 0;
      bseen = none;
      pending_cross_shard_block_hash = [];
      pending_block_size = 0;
      ma_count = negsuc 0;
      ma_pool = none;
      shard_height = [];
      world = world;
      sent = [];
    })
