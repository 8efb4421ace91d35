-- ===== src/Pyramid/Consensus/Frames.antt =====
-- source/pyramid/consensus/main.go: what the execution of a block and the sending of votes leave as it
-- is in the state of a node.
use urd_code.Prelude.{◌+◌, ◌≡◌, Bool, Option, none, some, List, [], ◌∷◌, arith, length}
use urd_code.Prelude.Int.{negsuc, pos_part, neg_part}
use urd_code.Prelude.Bytes.{Bytes}
use urd_code.Prelude.Calls.{returns, >>=-eq-returns}
use urd_code.Pyramid.Votes.{PrecommitAggregated}
use urd_code.Pyramid.HeightData.Grows.{Grows}
use urd_code.Pyramid.Block.{Block}
use urd_code.Pyramid.Consensus.{Env, ConsensusState}
use urd_code.Pyramid.Consensus.Process.{
  update_i_state, update_i_states, read_commits, deliver, process_accept, process_commit,
  signatures, execute_i_block, process_i_block, update_b_state, commit_pending, process_b_block,
}

-- The place of a node in the run, and its counters, stay.
abbrev pub SamePlace : {W : Type 0} → ConsensusState W → ConsensusState W → Type 0
SamePlace s s' =
    (s'.height ≡ s.height)
    × (s'.round ≡ s.round)
    × (s'.step ≡ s.step)
    × Grows s.height_datas s'.height_datas

abbrev pub SameOks : {W : Type 0} → ConsensusState W → ConsensusState W → Type 0
SameOks s s' = (s'.bcount ≡ s.bcount) × (s'.bseen ≡ s.bseen)

abbrev pub SameAccepts : {W : Type 0} → ConsensusState W → ConsensusState W → Type 0
SameAccepts s s' = (s'.ma_count ≡ s.ma_count) × (s'.ma_pool ≡ s.ma_pool)

abbrev pub Frame : {W : Type 0} → ConsensusState W → ConsensusState W → Type 0
Frame s s' = SamePlace s s' × SameOks s s' × SameAccepts s s'

pub Frame-trans : {W : Type 0} (a b c : ConsensusState W) → Frame a b → Frame b c → Frame a c
Frame-trans a b c h k = ground arith

module _ {W : Type 0} (env : Env W) where
  update_i_state-Frame :
      (b : Block) (hash : Bytes) (s : ConsensusState W) → Frame s (update_i_state env b hash s)
  unfolding update_i_state
  update_i_state-Frame b hash s = ground arith

  update_i_states-Frame :
      (b : Block) (hashes : List Bytes) (s : ConsensusState W)
      → Frame s (update_i_states env b hashes s)
  unfolding update_i_states
  update_i_states-Frame b [] s = ground arith
  update_i_states-Frame b (hash ∷ hashes) s =
      let s1 = update_i_state env b hash s in
      Frame-trans s s1 (update_i_states env b hashes s1) (update_i_state-Frame b hash s)
        (update_i_states-Frame b hashes s1)

  deliver-Frame :
      (in_round : Bool) (b : Block) (sig : Option PrecommitAggregated) (s s' : ConsensusState W)
      → deliver env in_round b sig s ≡ returns s'
      → Frame s s'
  unfolding deliver
  deliver-Frame in_round b none s s' r = ground arith
  deliver-Frame in_round b (some sig) s s' r = ground arith

  process_accept-Frame :
      (b : Block) (chain : Bytes) (sig : Option PrecommitAggregated) (isok : Bool)
      (s s' : ConsensusState W) (receipts : List Bytes)
      → process_accept env b chain sig isok s ≡ returns (s', receipts)
      → Frame s s'
  unfolding process_accept update_i_state
  process_accept-Frame b chain sig isok s s' receipts r = ground arith

  process_commit-Frame :
      (b : Block) (chain : Bytes) (in_round : Bool) (s s' : ConsensusState W)
      (receipts : List Bytes)
      → process_commit env b chain in_round s ≡ returns (s', receipts)
      → Frame s s'
  unfolding process_commit
  process_commit-Frame b chain in_round s s' receipts r =
      let ((hashes, commits), r1, r2) = >>=-eq-returns (read_commits env b.body_txs) _ r in
      let ((w, receipts'), r3, r4) =
        >>=-eq-returns (env.accept_commit_shard hashes commits chain s.world) _ r2 in
      ground (arith, update_i_states-Frame b hashes (record s { world = w }))

  execute-Frame :
      (b : Block) (chain : Bytes) (in_round isok : Bool) (sig : Option PrecommitAggregated)
      (s s' : ConsensusState W) (receipts : List Bytes)
      → execute_i_block env b chain in_round isok sig s ≡ returns (s', receipts)
      → Frame s s'
  unfolding execute_i_block update_i_state
  execute-Frame b chain in_round isok sig s s' receipts r = ground (
    arith,
    process_accept-Frame b chain sig isok s s' receipts,
    process_commit-Frame b chain in_round s s' receipts,
  )

  pub process_i_block-Frame :
      (b : Block) (chain : Bytes) (in_round isok : Bool) (s s' : ConsensusState W)
      (receipts : List Bytes)
      → process_i_block env b chain in_round isok s ≡ returns (s', receipts)
      → Frame s s'
  unfolding process_i_block
  process_i_block-Frame b chain in_round isok s s' receipts r =
      let (sig, r1, r2) = >>=-eq-returns (signatures env in_round s) _ r in
      let (s1, r3, r4) = >>=-eq-returns (deliver env in_round b sig s) _ r2 in
      Frame-trans s s1 s' (deliver-Frame in_round b sig s s1 r3)
        (execute-Frame b chain in_round isok sig s1 s' receipts r4)

  -- The counter of accepts is -1 where none are waited for, and else what is still missing.
  abbrev pub AcceptsValid : ConsensusState W → Type 0
  AcceptsValid s = elim s.ma_pool [
    | none ↦ s.ma_count ≡ negsuc 0
    | some pool ↦
        pos_part s.ma_count + length pool ≡ length env.related_shards + neg_part s.ma_count
  ]

  pub process_b_block-AcceptsValid :
      (b : Block) (s s' : ConsensusState W) (receipts : List Bytes)
      → process_b_block env b s ≡ returns (s', receipts)
      → AcceptsValid s
      → SamePlace s s' × SameOks s s' × AcceptsValid s'
  unfolding process_b_block update_b_state commit_pending
  process_b_block-AcceptsValid b s s' receipts r h = ground arith
