-- ===== src/Pyramid/HeightData.antt =====
-- source/pyramid/consensus/height_datas.go: what a node has collected for one height and round. A
-- nil verifier and an index out of range panic. `NewVerifier` and the codecs are parameters.
pub mod Add
pub mod Steps
pub mod Grows
mod Tests
use urd_code.Prelude.{
  ℕ, zero, suc, ◌+◌, Bool, true, false, not, ◌||◌, ◌&&◌, Option, none, some, List, [], ◌∷◌, ◌++◌,
  map, if◌then◌else◌, ltb, leb, get_elem?, length,
}
use urd_code.Prelude.Int.{ℤ, pos, negsuc, eqb_ℤ, ltb_ℤ, suc_ℤ, is_negative}
use urd_code.Prelude.Bytes.{Bytes, bytes_eq}
use urd_code.Prelude.Maps.{Map, lookup, insert}
use urd_code.Prelude.Calls.{Call, returns, panics, ◌>>=◌}
use urd_code.Prelude.Words.{add_32}
use urd_code.Signer.{Verifier, verify}
use urd_code.Pyramid.VoteSet.{
  VoteSet, VoteError, new_vote_set, read_elem, get_maj23, get_maj23_aggre_sig,
}
use urd_code.Pyramid.VoteSet
use urd_code.Pyramid.Parts.{
  Part, PartSet, PartError, duplicated, Codec, new_part_set, is_complete, gen_block,
}
use urd_code.Pyramid.Parts
use urd_code.Pyramid.Votes.{
  Proposal, StepVote, PrecommitAggregated, Wire, as_vote, proposal_sign_bytes, vote_sign_bytes,
  new_precommit_aggregated, set_code,
}

pub record Peer : Type 0 where
  pub pubkey : Bytes
  pub vote : ℕ

-- `RoundStepNewHeight` and what follows it, by their numbers.
abbrev pub step_new_height : ℕ
step_new_height = 1

abbrev pub step_propose : ℕ
step_propose = 3

abbrev pub step_prevote : ℕ
step_prevote = 4

abbrev pub step_precommit : ℕ
step_precommit = 5

pub data AddError : Type 0 where
  do_nothing wrong_proposer wrong_chain wrong_index wrong_signature : AddError
  vote_error : VoteError → AddError
  part_error : PartError → AddError

module _ (B : Type 0) where
  pub record HeightData : Type 0 where
    pub height : ℤ
    pub round : ℤ
    pub my_chain_id : Bytes
    pub pass_step : ℕ
    pub peer_list : Map (List Peer)
    pub shard_votes : Map ℕ
    pub all_validator_set : Map Verifier
    pub proposal : Option Proposal
    pub prevotes : VoteSet
    pub precommits : VoteSet
    pub part_set : Option PartSet
    pub block : Option B
    pub random_header_buffer : List Part

unfoldable pub sum_votes : ℕ → List Peer → ℕ
sum_votes acc [] = acc
sum_votes acc (p ∷ ps) = sum_votes (add_32 acc p.vote) ps

-- `h.AllValidatorSet[h.MyChainID].Size()`
abbrev pub size_of : Option Verifier → Call ℕ
size_of none = panics
size_of (some v) = returns v.keys

abbrev total_of : Option ℕ → ℕ
total_of none = 0
total_of (some t) = t

module _ {B : Type 0} where
  -- The loop of `SetShardInfo`: the first set of keys that is refused ends it.
  unfoldable pub set_peers :
      (List Bytes → Option Verifier) → Map (List Peer) → HeightData B → HeightData B × Bool
  unfolding sum_votes insert
  set_peers new_verifier [] h = (h, true)
  set_peers new_verifier ((chain, peers) ∷ rest) h =
      elim (new_verifier (map (λ (p : Peer). p.pubkey) peers)) [
        | none ↦ (h, false)
        | some v ↦ set_peers new_verifier rest (record h {
          all_validator_set = insert chain v h.all_validator_set;
          shard_votes = insert chain (sum_votes 0 peers) h.shard_votes;
        })
      ]

  unfoldable pub set_shard_info :
      (List Bytes → Option Verifier) → Map (List Peer) → HeightData B → HeightData B × Bool
  unfolding set_peers
  set_shard_info new_verifier peer_list h =
      set_peers new_verifier peer_list
        (record h { peer_list = peer_list; all_validator_set = []; shard_votes = [] })

  abbrev pub my_verifier : HeightData B → Option Verifier
  my_verifier h = lookup h.my_chain_id h.all_validator_set

  -- The empty vote set of the shard.
  unfoldable pub clear_votes : HeightData B → Call VoteSet
  unfolding lookup new_vote_set
  clear_votes h = do
    n ← size_of (my_verifier h)
    returns (new_vote_set n (total_of (lookup h.my_chain_id h.shard_votes)))

  unfoldable pub clear_all : HeightData B → Call (HeightData B)
  unfolding clear_votes
  clear_all h = do
    prevotes ← clear_votes h
    precommits ← clear_votes h
    returns (record h {
      proposal = none;
      block = none;
      part_set = none;
      prevotes = prevotes;
      precommits = precommits;
    })

  unfoldable pub next_height : HeightData B → Call (HeightData B)
  unfolding clear_all
  next_height h =
      clear_all (record h { height = suc_ℤ h.height; round = pos 0; pass_step = step_new_height })

  -- Before the keys and the votes are filled in.
  abbrev pub unset : Bytes → ℤ → HeightData B
  unset chain height = record {
    height = height;
    round = pos 0;
    my_chain_id = chain;
    pass_step = step_new_height;
    peer_list = [];
    shard_votes = [];
    all_validator_set = [];
    proposal = none;
    prevotes = new_vote_set 0 0;
    precommits = new_vote_set 0 0;
    part_set = none;
    block = none;
    random_header_buffer = [];
  }

  unfoldable pub new_height_data :
      (List Bytes → Option Verifier) → Bytes → ℤ → Map (List Peer) → Call (HeightData B)
  unfolding set_shard_info clear_all
  new_height_data new_verifier chain height peer_list =
      clear_all (set_shard_info new_verifier peer_list (unset chain height)).0

  -- Whether the parts of the block are there. A nil part set beside a block panics.
  abbrev has_block : HeightData B → Call Bool
  has_block h = elim h.block [
    | none ↦ returns false
    | some _ ↦ elim h.part_set [ none ↦ panics | some ps ↦ returns (is_complete ps) ]
  ]

  unfoldable pub finish_proposal : HeightData B → Call (HeightData B × Bool)
  finish_proposal h = if leb step_propose h.pass_step then returns (h, true) else elim h.proposal [
    | none ↦ returns (h, false)
    | some _ ↦ do
      b ← has_block h
      returns (if b then (record h { pass_step = step_propose }, true) else (h, false))
  ]

  unfoldable pub finish_prevote : HeightData B → Call (HeightData B × Bool)
  unfolding finish_proposal
  finish_prevote h = if leb step_prevote h.pass_step then returns (h, true) else (do
    (h', ok) ← finish_proposal h
    returns (
        if not ok
        then (h', false)
        else if not h'.prevotes.has_mj23
        then (h', false)
        else (record h' { pass_step = step_prevote }, true)))

  unfoldable pub finish_precommit : HeightData B → Call (HeightData B × Bool)
  unfolding finish_prevote
  finish_precommit h = if leb step_precommit h.pass_step then returns (h, true) else (do
    (h', ok) ← finish_prevote h
    returns (
        if not ok
        then (h', false)
        else if not h'.precommits.has_mj23
        then (h', false)
        else (record h' { pass_step = step_precommit }, true)))
