-- ===== src/Urd/Consensus/Frames.antt =====
-- source/urd/consensus: what the operations keep: the view and the round that votes and blocks are
-- collected for agree, the pool has its size, and the messages of shards belong to known shards.
use mathlib.Core.Path.{subst}
use urd_code.Prelude.{
  true, false, ◌≤◌, ◌≡◌, refl, sym, ap, ◌∙◌, inl, inr, Option, List, [], ◌∷◌, arith, Option-cases,
  length, length-append,
}
use urd_code.Prelude.Int.{ltb_ℤ, pos, suc_ℤ}
use urd_code.Prelude.Bytes.{Bytes}
use urd_code.Prelude.Maps.{insert, lookup}
use urd_code.Prelude.Keys.{Distinct, Within, Within-insert, insert-Distinct, contains-insert}
use urd_code.Prelude.Calls.{returns, >>=-eq-returns, call_cases}
use urd_code.Hotstuff.Votes.{Vote, AggregatedVote, Wire}
use urd_code.Hotstuff.Votes
use urd_code.Hotstuff.State.{
  State, state_add_vote, state_get_maj23, enter_new_view, state_is_quorum,
}
use urd_code.Urd.Block.{Block, CrossShardMessage, deref}
use urd_code.Urd.BlockData.{BlockData, next}
use urd_code.Urd.BlockData.Current.{IsCurrent, Collects, next-IsCurrent}
use urd_code.Urd.Consensus.{
  Env, ConsensusState, append_to, append_block, enter_next_view, commit_and_execution, fetch_block,
}
use urd_code.Urd.Consensus.CrossShard.{extend_hash}

-- Messages are taken from shards whose last hash is known, once from each.
abbrev pub Known : BlockData → Type 0
Known bd = Distinct bd.finished × Within bd.finished bd.last_hash

length-append_to : (pool : List Block) (b : Block) → length pool ≤ 7 → length (append_to pool b) ≤ 7
length-append_to [] b h = ground arith
length-append_to (c ∷ pool) b h =
    ground (arith, length-append pool (b ∷ []), length-append (c ∷ pool) (b ∷ []))

module _ {W : Type 0} where
  abbrev pub IsValid : ConsensusState W → Type 0
  IsValid s =
      (s.block_data.retain_view ≡ s.hotstuff.view)
      × (s.block_data.retain_round ≡ s.hotstuff.round)
      × (length s.block_pool ≤ 7)
      × IsCurrent s.block_data
      × Known s.block_data

  -- No shard is forgotten.
  abbrev pub KeepsShards : ConsensusState W → ConsensusState W → Type 0
  KeepsShards s s' = Within s.block_data.last_hash s'.block_data.last_hash

  -- A quorum of votes stays one.
  abbrev pub KeepsQuorum : ConsensusState W → ConsensusState W → Type 0
  KeepsQuorum s s' =
      state_is_quorum s.hotstuff ≡ returns true → state_is_quorum s'.hotstuff ≡ returns true

  -- The view stays, a quorum for it, and what is valid.
  unfoldable pub Keeps : ConsensusState W → ConsensusState W → Type 0
  Keeps s s' =
      (s'.hotstuff.view ≡ s.hotstuff.view)
      × (IsValid s → IsValid s')
      × KeepsShards s s'
      × KeepsQuorum s s'

  -- The next view begins.
  unfoldable pub Enters : ConsensusState W → ConsensusState W → Type 0
  Enters s s' =
      (s'.hotstuff.view ≡ suc_ℤ s.hotstuff.view) × (IsValid s → IsValid s') × KeepsShards s s'

  -- The view does not go back.
  unfoldable pub Moves : ConsensusState W → ConsensusState W → Type 0
  Moves s s' =
      (ltb_ℤ s'.hotstuff.view s.hotstuff.view ≡ false) × (IsValid s → IsValid s') × KeepsShards s s'

  pub Keeps-Moves : (s s' : ConsensusState W) → Keeps s s' → Moves s s'
  unfolding Keeps Moves
  Keeps-Moves s s' h = (ground (arith, h.0), h.1, h.2)

  pub Enters-Moves : (s s' : ConsensusState W) → Enters s s' → Moves s s'
  unfolding Enters Moves
  Enters-Moves s s' h = (ground (arith, h.0), h.1, h.2)

  pub Moves-trans : (a b c : ConsensusState W) → Moves a b → Moves b c → Moves a c
  unfolding Moves
  Moves-trans a b c h k = (ground (arith, h.0, k.0), λ i. k.1 (h.1 i), λ id m. k.2 id (h.2 id m))

  pub Keeps-refl : (s : ConsensusState W) → Keeps s s
  unfolding Keeps
  Keeps-refl s = (refl, λ i. i, λ k h. h, λ q. q)

  pub Keeps-trans : (a b c : ConsensusState W) → Keeps a b → Keeps b c → Keeps a c
  unfolding Keeps
  Keeps-trans a b c h k = (k.0 ∙ h.0, λ i. k.1 (h.1 i), λ id m. k.2 id (h.2 id m), λ q. k.3 (h.3 q))

  pub Enters-Keeps : (a b c : ConsensusState W) → Enters a b → Keeps b c → Enters a c
  unfolding Keeps Enters
  Enters-Keeps a b c h k = (k.0 ∙ h.0, λ i. k.1 (h.1 i), λ id m. k.2 id (h.2 id m))

  pub Keeps-Enters : (a b c : ConsensusState W) → Keeps a b → Enters b c → Enters a c
  unfolding Keeps Enters
  Keeps-Enters a b c h k = (k.0 ∙ ap suc_ℤ h.0, λ i. k.1 (h.1 i), λ id m. k.2 id (h.2 id m))

  pub append_block-Keeps : (b : Block) (s : ConsensusState W) → Keeps s (append_block b s)
  unfolding Keeps
  append_block-Keeps b s =
      (refl, λ i. (i.0, i.1, length-append_to s.block_pool b i.2, i.3, i.4), λ k h. h, λ q. q)

  pub enter_next_view-Enters : (s : ConsensusState W) → Enters s (enter_next_view s)
  unfolding enter_next_view next enter_new_view Distinct lookup Enters
  enter_next_view-Enters s = (
    refl,
    λ i. (
      refl,
      refl,
      i.2,
      next-IsCurrent (suc_ℤ s.hotstuff.view) (pos 0) s.block_data,
      (tt, λ k h. ground arith),
    ),
    λ k h. h,
  )

  pub extend_hash-Keeps :
      (csm : CrossShardMessage) (s s' : ConsensusState W)
      → extend_hash csm s ≡ returns s'
      → Keeps s s'
  unfolding extend_hash Keeps
  extend_hash-Keeps csm s s' r =
      let (v, r1, r2) = >>=-eq-returns (deref csm.agg_vote) _ r in
      let next_state = record s {
        block_data = record (s.block_data) {
          finished = insert csm.source_chain csm s.block_data.finished;
          last_hash = insert csm.source_chain v.for_hash s.block_data.last_hash;
        };
      } in
      subst (Keeps s) {x = next_state} {y = s'} (ground arith) (
        refl,
        λ i. (
          i.0,
          i.1,
          i.2,
          i.3,
          (
            insert-Distinct csm.source_chain csm s.block_data.finished i.4.0,
            Within-insert csm.source_chain csm v.for_hash s.block_data.finished
                s.block_data.last_hash i.4.1,
          ),
        ),
        λ k h. contains-insert csm.source_chain k v.for_hash s.block_data.last_hash h,
        λ q. q,
      )

  -- The blocks and parts that are collected.
  pub Collects-Keeps :
      (s : ConsensusState W) (bd : BlockData)
      → Collects s.block_data bd
      → Keeps s (record s { block_data = bd })
  unfolding Keeps
  Collects-Keeps s bd h = (
    refl,
    λ i. (
      ap (λ (x : BlockData). x.retain_view) h.0 ∙ i.0,
      ap (λ (x : BlockData). x.retain_round) h.0 ∙ i.1,
      i.2,
      h.1 i.3,
      subst Known (sym h.0) i.4,
    ),
    subst (λ (x : BlockData). Within s.block_data.last_hash x.last_hash) (sym h.0) (λ k m. m),
    λ q. q,
  )

  pub with_hotstuff-Keeps :
      (s : ConsensusState W) (hs : State)
      → hs.view ≡ s.hotstuff.view
      → hs.round ≡ s.hotstuff.round
      → KeepsQuorum s (record s { hotstuff = hs })
      → Keeps s (record s { hotstuff = hs })
  unfolding Keeps
  with_hotstuff-Keeps s hs v r same =
      (v, λ i. (i.0 ∙ sym v, i.1 ∙ sym r, i.2, i.3, i.4), λ k h. h, same)

module _ {W : Type 0} (env : Env W) where
  pub commit_and_execution-Keeps :
      (s s' : ConsensusState W) (op_txs : List (List Bytes))
      → commit_and_execution env s ≡ returns (s', op_txs)
      → Keeps s s'
  unfolding commit_and_execution Keeps
  commit_and_execution-Keeps s s' op_txs r = elim (Option-cases (fetch_block 2 s)) [
    | inl e ↦ subst (Keeps s) {x = s} {y = s'} (ground arith) (Keeps-refl s)
    | inr (b, e) ↦ elim (call_cases (env.execution b.p_txs b.cross_shard_txs b.c_txs s.world)) [
      | inl ((w, txs), q) ↦
          subst (Keeps s) {x = record s { world = w }} {y = s'} (ground arith)
            (refl, λ i. i, λ k h. h, λ q. q)
      | inr q ↦ ground arith
    ]
  ]

  pub state_add_vote-Keeps :
      (s : ConsensusState W) (v : Vote) (hs : State) (e : Option Votes.Error)
      → state_add_vote env.wire s.hotstuff v ≡ returns (hs, e)
      → Keeps s (record s { hotstuff = hs })
  unfolding state_add_vote state_is_quorum
  state_add_vote-Keeps s v hs e r =
      with_hotstuff-Keeps s hs (ground arith) (ground arith) (λ q. ground arith)

  pub state_get_maj23-Keeps :
      (s : ConsensusState W) (hs : State) (agg : Option AggregatedVote) (e : Option Votes.Error)
      → state_get_maj23 env.aggregate_signatures s.hotstuff ≡ returns (hs, agg, e)
      → Keeps s (record s { hotstuff = hs })
  unfolding state_get_maj23 state_is_quorum
  state_get_maj23-Keeps s hs agg e r =
      with_hotstuff-Keeps s hs (ground arith) (ground arith) (λ q. ground arith)
