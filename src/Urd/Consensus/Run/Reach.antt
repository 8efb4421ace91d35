-- ===== src/Urd/Consensus/Run/Reach.antt =====
-- source/urd/consensus/state.go: the states that a node reaches, from `NewState` and `Start` by any
-- messages in any order, and what holds in all of them.
use urd_code.Prelude.{
  ℕ, zero, suc, ◌≡◌, refl, ap, inl, inr, Bool, true, false, Option, some, List, [], ◌∷◌, arith,
  Option-cases, get_elem?, length, ==_iff,
}
use urd_code.Prelude.Int.{ℤ, ltb_ℤ}
use urd_code.Prelude.Bytes.{Bytes}
use urd_code.Prelude.Maps.{Map, contains, lookup}
use urd_code.Prelude.Keys.{Distinct, contains-insert, contains-insert_self, Within-full}
use urd_code.Prelude.IntMaps.{find_in}
use urd_code.Prelude.Calls.{returns, >>=-eq-returns, call_cases}
use urd_code.Signer.{Verifier}
use urd_code.Hotstuff.State.{new_state}
use urd_code.Pyramid.Parts.{Proof}
use urd_code.Urd.Block.{CrossShardMessage}
use urd_code.Urd.BlockData.{new_block_data, next, is_cross_shard_complete}
use urd_code.Urd.Consensus.{
  Env, ConsensusState, Error, Message, leader_vote, validator_wait, enter_next_view,
}
use urd_code.Urd.Consensus.Propose.{messages_of, do_propose}
use urd_code.Urd.Consensus.Frames.{
  IsValid, Moves, Keeps-Moves, Enters-Moves, Moves-trans, enter_next_view-Enters,
}
use urd_code.Urd.Consensus.Enters.{do_propose-Enters}
use urd_code.Urd.Consensus.Run.{
  no_hashes, take, do_message, is_basic, receive, new_consensus_state, start,
}
use urd_code.Urd.Consensus.Run.Invariants.{take-Keeps, handle-Moves, with_step-Moves, Moves-refl}

-- The states of a node between two messages.
pub data Reaches {W : Type 0} (env : Env W) : ConsensusState W → Type 0 where
  started :
      (view round : ℤ) (validators : Verifier) (weights : List ℕ) (world : W) (fuel : ℕ)
      (e : Option Error) {s : ConsensusState W}
      → start env fuel (new_consensus_state env view round validators weights world)
        ≡ returns (some (s, e))
      → Reaches env s
  took :
      {s : ConsensusState W} (is_basic_proof : Proof → Bool) (fuel : ℕ) (m : Message)
      (e : Option Error) {s' : ConsensusState W}
      → Reaches env s
      → receive env is_basic_proof fuel m s ≡ returns (some (s', e))
      → Reaches env s'

contains-no_hashes :
    (ids : List Bytes) (i : ℕ) (id : Bytes)
    → get_elem? ids i ≡ some id
    → contains id (no_hashes ids) ≡ true
unfolding no_hashes
contains-no_hashes [] i id h = ground arith
contains-no_hashes (j ∷ ids) zero id h = ground (arith, contains-insert_self j [] (no_hashes ids))
contains-no_hashes (j ∷ ids) (suc i) id h =
    contains-insert j id [] (no_hashes ids) (contains-no_hashes ids i id h)

module _ {W : Type 0} (env : Env W) where
  -- Every shard of the list has a last hash.
  abbrev HasShards : ConsensusState W → Type 0
  HasShards s =
      (i : ℕ) (id : Bytes)
      → get_elem? env.shard_ids i ≡ some id
      → contains id s.block_data.last_hash ≡ true

  new_consensus_state-IsValid :
      (view round : ℤ) (validators : Verifier) (weights : List ℕ) (world : W)
      → IsValid (new_consensus_state env view round validators weights world)
        × HasShards (new_consensus_state env view round validators weights world)
  unfolding new_consensus_state new_state new_block_data Distinct lookup find_in
  new_consensus_state-IsValid view round validators weights world = (
    (
      refl,
      refl,
      omega arith,
      (λ v r h. ground arith, λ v r h. ground arith),
      (tt, λ k h. ground arith),
    ),
    contains-no_hashes env.shard_ids,
  )

  start-Moves :
      (fuel : ℕ) (s s' : ConsensusState W) (e : Option Error)
      → start env fuel s ≡ returns (some (s', e))
      → Moves s s'
  unfolding start
  start-Moves fuel s s' e r =
      let entered = enter_next_view s in
      let waiting =
        Moves-trans s entered (record entered { step = validator_wait })
          (Enters-Moves s entered (enter_next_view-Enters s))
          (with_step-Moves env validator_wait entered) in
      elim (call_cases (do_propose env s)) [
        | inl ((s1, e1), q) ↦ ground (
          arith,
          handle-Moves env fuel s s' e,
          waiting,
          Moves-trans s s1 (record s1 { step = leader_vote })
              (Enters-Moves s s1 (do_propose-Enters env s s1 e1 q))
              (with_step-Moves env leader_vote s1),
        )
        | inr q ↦ ground (arith, handle-Moves env fuel s s' e, waiting)
      ]

  do_message-Moves :
      (fuel : ℕ) (m : Message) (s s' : ConsensusState W) (e : Option Error)
      → do_message env fuel m s ≡ returns (some (s', e))
      → Moves s s'
  unfolding do_message
  do_message-Moves fuel m s s' e r =
      let ((s1, e1), r1, r2) = >>=-eq-returns (take env m s) _ r in
      let taken = Keeps-Moves s s1 (take-Keeps env m s s1 e1 r1) in
      ground (arith, taken, Moves-trans s s1 s' taken, handle-Moves env fuel s1 s' e)

  receive-Moves :
      (is_basic_proof : Proof → Bool) (fuel : ℕ) (m : Message) (s s' : ConsensusState W)
      (e : Option Error)
      → receive env is_basic_proof fuel m s ≡ returns (some (s', e))
      → Moves s s'
  unfolding receive
  receive-Moves is_basic_proof fuel m s s' e r =
      let (ok, r1, r2) = >>=-eq-returns (is_basic env is_basic_proof m) _ r in
      ground (arith, Moves-refl env s, do_message-Moves fuel m s s' e)

  -- No message makes a node go back to an earlier view.
  pub receive_mono :
      (is_basic_proof : Proof → Bool) (fuel : ℕ) (m : Message) (s s' : ConsensusState W)
      (e : Option Error)
      → receive env is_basic_proof fuel m s ≡ returns (some (s', e))
      → ltb_ℤ s'.hotstuff.view s.hotstuff.view ≡ false
  unfolding Moves
  receive_mono is_basic_proof fuel m s s' e r = (receive-Moves is_basic_proof fuel m s s' e r).0

  Reaches-holds : {s : ConsensusState W} → Reaches env s → IsValid s × HasShards s
  unfolding Moves
  Reaches-holds (started view round validators weights world fuel e {s = s} r) =
      let (valid, has) = new_consensus_state-IsValid view round validators weights world in
      let moves =
        start-Moves fuel (new_consensus_state env view round validators weights world) s e r in
      (moves.1 valid, λ i id h. moves.2 id (has i id h))
  Reaches-holds (took {s = s} is_basic_proof fuel m e {s' = s'} reach r) =
      let (valid, has) = Reaches-holds reach in
      let moves = receive-Moves is_basic_proof fuel m s s' e r in
      (moves.1 valid, λ i id h. moves.2 id (has i id h))

  -- In every state that a node reaches, its blocks are collected for the view and the round of its
  -- votes, its pool has at most 7 blocks, no part set and no part of an earlier view and round is
  -- kept, and the messages that are taken are of different shards, whose last hash is known.
  pub Reaches-IsValid : (s : ConsensusState W) → Reaches env s → IsValid s
  Reaches-IsValid s reach = (Reaches-holds reach).0

  messages_of-Within :
      (ids : List Bytes) (m : Map CrossShardMessage)
      → ((i : ℕ) (id : Bytes) → get_elem? ids i ≡ some id → contains id m ≡ true)
      → (csms : List CrossShardMessage) × (messages_of ids m ≡ returns csms)
        × (length csms ≡ length ids)
  unfolding messages_of
  messages_of-Within [] m h = ([], refl, refl)
  messages_of-Within (id ∷ ids) m h =
      let (csms, e, l) = messages_of-Within ids m (λ i j g. h (suc i) j g) in
      elim (Option-cases (lookup id m)) [
        | inl q ↦ ground (arith, h 0 id refl)
        | inr (csm, q) ↦ (csm ∷ csms, rw (q, e), ap suc l)
      ]

  -- In every state that a node reaches in which it has as many messages as shards, the next view
  -- begins with a message of every shard of the list, so no message is missing for the block that is
  -- made of them.
  pub Reaches-messages :
      (s : ConsensusState W)
      → Reaches env s
      → is_cross_shard_complete s.block_data ≡ true
      → (csms : List CrossShardMessage) × (messages_of env.shard_ids
            (enter_next_view s).block_data.j_1finished
          ≡ returns csms)
        × (length csms ≡ length env.shard_ids)
  unfolding enter_next_view next
  Reaches-messages s reach complete =
      let (valid, has) = Reaches-holds reach in
      let full =
        Within-full s.block_data.finished s.block_data.last_hash valid.4.0 valid.4.1
          ((==_iff _ _).0 complete) in
      messages_of-Within env.shard_ids s.block_data.finished (λ i id h. full id (has i id h))
