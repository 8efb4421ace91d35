-- ===== src/Urd/Consensus/Keeps.antt =====
-- source/urd/consensus: the messages between shards keep the view, and what is valid.
use urd_code.Prelude.{
  ℕ, suc, ◌≡◌, refl, inl, inr, Option, none, some, map, List, [], ◌∷◌, arith, Option-cases,
}
use urd_code.Prelude.Bytes.{Bytes}
use urd_code.Prelude.Maps.{lookup}
use urd_code.Prelude.Calls.{returns, ◌>>=◌, >>=-eq-returns, call_cases}
use urd_code.Hotstuff.Votes.{AggregatedVote}
use urd_code.Hotstuff.State.{state_get_maj23}
use urd_code.Urd.Block.{Block, CrossShardMessage, deref, get_last_hash}
use urd_code.Urd.Consensus.{
  Env, ConsensusState, Error, Receiver, Message, node, cross_shard_message, send,
}
use urd_code.Urd.Consensus.CrossShard.{
  message_key, hash_at, redo_stored, deliver, proving_block, model_message, extend_hash,
  take_message, add_message, redo, message_for, broadcast, communicate_with, communicate_quorum,
  communicate,
}
use urd_code.Urd.Consensus.Frames.{
  Keeps, Keeps-refl, Keeps-trans, extend_hash-Keeps, state_get_maj23-Keeps,
}

module _ {W : Type 0} (env : Env W) where
  pub send-Keeps : (to : Receiver) (m : Message) (s : ConsensusState W) → Keeps s (send to m s)
  unfolding Keeps
  send-Keeps to m s = (refl, λ i. i, λ k h. h, λ q. q)

  take_message-Keeps :
      (csm : CrossShardMessage) (last : Bytes) (s s' : ConsensusState W) (e : Option Error)
      → take_message env csm last s ≡ returns (s', e)
      → Keeps s s'
  take_message-Keeps csm last s s' e r = elim (call_cases (extend_hash csm s)) [
    | inl (s1, q) ↦ ground (arith, Keeps-refl s, extend_hash-Keeps csm s s1 q)
    | inr q ↦ ground (arith, Keeps-refl s)
  ]

  pub world-Keeps : (w : W) (s : ConsensusState W) → Keeps s (record s { world = w })
  unfolding Keeps
  world-Keeps w s = (refl, λ i. i, λ k h. h, λ q. q)

  pub add_message-Keeps :
      (csm : CrossShardMessage) (s s' : ConsensusState W) (e : Option Error)
      → add_message env csm s ≡ returns (s', e)
      → Keeps s s'
  unfolding add_message
  add_message-Keeps csm s s' e r =
      let (last, r1, r2) = >>=-eq-returns (get_last_hash csm) _ r in
      let key = message_key csm.source_chain last in
      elim (Option-cases (env.set_special key (env.message_bytes csm) s.world)) [
        | inl q ↦ ground (arith, Keeps-refl s)
        | inr (w, q) ↦
            let s1 = record s { world = w } in
            ground (
              arith,
              Keeps-refl s,
              Keeps-trans s s1 s' (world-Keeps w s),
              take_message-Keeps csm last s1 s' e,
            )
      ]

  redo_stored-Keeps :
      (stored : Option Bytes) (s s' : ConsensusState W) (e : Option Error)
      → redo_stored env stored s ≡ returns (s', e)
      → Keeps s s'
  redo_stored-Keeps none s s' e r = ground (arith, Keeps-refl s)
  redo_stored-Keeps (some []) s s' e r = ground (arith, Keeps-refl s)
  redo_stored-Keeps (some (b ∷ bz)) s s' e r =
      elim (Option-cases (env.message_from_bytes (b ∷ bz))) [
        | inl q ↦ ground (arith, Keeps-refl s)
        | inr (csm, q) ↦ elim (call_cases (extend_hash csm s)) [
          | inl (s1, t) ↦ ground (arith, extend_hash-Keeps csm s s1 t)
          | inr t ↦ ground arith
        ]
      ]

  redo-Keeps :
      (chains : List Bytes) (s s' : ConsensusState W) (e : Option Error)
      → redo env chains s ≡ returns (s', e)
      → Keeps s s'
  unfolding redo
  redo-Keeps [] s s' e r = ground (arith, Keeps-refl s)
  redo-Keeps (chain ∷ chains) s s' e r =
      let stored = env.get_special (message_key chain (hash_at env chain s)) s.world in
      elim (call_cases (redo_stored env stored s)) [
        | inl ((s1, e1), q) ↦ ground (
          arith,
          redo-Keeps chains s s' e,
          redo_stored-Keeps stored s s1 e1 q,
          Keeps-trans s s1 s',
          redo-Keeps chains s1 s' e,
        )
        | inr q ↦ ground (arith, redo-Keeps chains s s' e)
      ]

  deliver-Keeps :
      (id : Bytes) (csm : CrossShardMessage) (s s' : ConsensusState W)
      → deliver env id csm s ≡ returns s'
      → Keeps s s'
  deliver-Keeps id csm s s' r = elim (Option-cases (lookup id env.leaders)) [
    | inl q ↦ ground (arith, extend_hash-Keeps csm s s')
    | inr (leader, q) ↦
        ground (
          arith,
          extend_hash-Keeps csm s s',
          send-Keeps (node id leader) (cross_shard_message csm) s,
        )
  ]

  broadcast-Keeps :
      (model : CrossShardMessage) (b : Option Block) (i : ℕ) (ids : List Bytes)
      (s s' : ConsensusState W)
      → broadcast env model b i ids s ≡ returns s'
      → Keeps s s'
  unfolding broadcast
  broadcast-Keeps model b i [] s s' r = ground (arith, Keeps-refl s)
  broadcast-Keeps model b i (id ∷ ids) s s' r =
      let (csm, r1, r2) = >>=-eq-returns (message_for env model b i s) _ r in
      let (s1, r3, r4) = >>=-eq-returns (deliver env id csm s) _ r2 in
      Keeps-trans s s1 s' (deliver-Keeps id csm s s1 r3)
        (broadcast-Keeps model b (suc i) ids s1 s' r4)

  communicate_with-Keeps :
      (v : AggregatedVote) (s s' : ConsensusState W) (e : Option Error)
      → communicate_with env v s ≡ returns (s', e)
      → Keeps s s'
  communicate_with-Keeps v s s' e r =
      let (b, r1, r2) = >>=-eq-returns (proving_block env s) _ r in
      let (model, r3, r4) = >>=-eq-returns (model_message env v b) _ r2 in
      let (s1, r5, r6) = >>=-eq-returns (broadcast env model b 0 env.shard_ids s) _ r4 in
      ground (arith, broadcast-Keeps model b 0 env.shard_ids s s1 r5)

  communicate_quorum-Keeps :
      (s s' : ConsensusState W) (e : Option Error)
      → communicate_quorum env s ≡ returns (s', e)
      → Keeps s s'
  communicate_quorum-Keeps s s' e r =
      let ((hs, agg, e1), r1, r2) =
        >>=-eq-returns (state_get_maj23 env.aggregate_signatures s.hotstuff) _ r in
      let s1 = record s { hotstuff = hs } in
      let same = state_get_maj23-Keeps env s hs agg e1 r1 in
      elim (call_cases (do v ← deref agg; communicate_with env v s1)) [
        | inl ((s2, e2), q) ↦
            let (v, q1, q2) = >>=-eq-returns (deref agg) _ q in
            ground (arith, same, Keeps-trans s s1 s2 same, communicate_with-Keeps v s1 s2 e2 q2)
        | inr q ↦ ground (arith, same)
      ]

  pub communicate-Keeps :
      (s s' : ConsensusState W) (e : Option Error)
      → communicate env s ≡ returns (s', e)
      → Keeps s s'
  unfolding communicate
  communicate-Keeps s s' e r =
      let ((s1, e1), r1, r2) =
        >>=-eq-returns (redo env (map (λ (c : Bytes × Bytes). c.0) s.block_data.last_hash) s) _ r in
      ground (arith, redo-Keeps _ s s1 e1 r1, Keeps-trans s s1 s', communicate_quorum-Keeps s1 s' e)
