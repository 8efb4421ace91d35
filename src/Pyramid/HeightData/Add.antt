-- ===== src/Pyramid/HeightData/Add.antt =====
-- source/pyramid/consensus/height_datas.go: the handlers of the messages of a round.
use urd_code.Prelude.{
  ℕ, zero, Bool, not, ◌||◌, Option, none, some, List, [], ◌∷◌, ◌++◌, if◌then◌else◌, get_elem?,
}
use urd_code.Prelude.Int.{ℤ, pos, negsuc, eqb_ℤ, ltb_ℤ, is_negative}
use urd_code.Prelude.Bytes.{Bytes, bytes_eq}
use urd_code.Prelude.Maps.{lookup}
use urd_code.Prelude.Calls.{Call, returns, panics, ◌>>=◌}
use urd_code.Signer.{verify}
use urd_code.Pyramid.VoteSet.{VoteError, read_elem, get_maj23, get_maj23_aggre_sig, add_vote}
use urd_code.Pyramid.Parts.{
  Part, PartSet, PartError, duplicated, Codec, new_part_set, is_complete, gen_block, add_part,
}
use urd_code.Pyramid.Votes.{
  Proposal, StepVote, PrecommitAggregated, Wire, as_vote, proposal_sign_bytes, vote_sign_bytes,
  new_precommit_aggregated, set_code,
}
use urd_code.Pyramid.HeightData.{
  HeightData, Peer, AddError, do_nothing, wrong_proposer, wrong_chain, wrong_index, wrong_signature,
  vote_error, part_error, size_of, my_verifier,
}

abbrev as_vote_error : Option VoteError → Option AddError
as_vote_error none = none
as_vote_error (some e) = some (vote_error e)

-- `h.ShardInfo.PeerList[h.MyChainID][i].Vote`
abbrev peer_vote : Option (List Peer) → ℤ → Call ℕ
peer_vote (some peers) (pos i) = elim (get_elem? peers i) [
  | none ↦ panics
  | some p ↦ returns p.vote
]
peer_vote (some peers) (negsuc _) = panics
peer_vote none i = panics

module _ {B : Type 0} (codec : Codec B) where
  -- What follows `PartSet.AddPart`.
  abbrev pub after_add :
      HeightData B → PartSet → Option PartError → Call (HeightData B × Option AddError)
  after_add h ps (some duplicated) = returns (record h { part_set = some ps }, some do_nothing)
  after_add h ps (some e) = returns (record h { part_set = some ps }, some (part_error e))
  after_add h ps none =
      if is_complete ps
      then (do
        (block, err) ← gen_block codec ps
        returns (elim err [
          | some e ↦ (record h { part_set = some ps }, some (part_error e))
          | none ↦ (record h { part_set = some ps; block = block }, none)
        ]))
      else returns (record h { part_set = some ps }, none)

  unfoldable pub height_add_part : HeightData B → Part → Call (HeightData B × Option AddError)
  unfolding add_part gen_block bytes_eq
  height_add_part h p =
      if not (eqb_ℤ h.height p.height) || not (eqb_ℤ h.round p.round)
      then returns (h, some do_nothing)
      else if not (bytes_eq p.chain_id h.my_chain_id)
      then returns (h, some wrong_chain)
      else elim h.part_set [
        | none ↦
            returns (
              record h { random_header_buffer = h.random_header_buffer ++ p ∷ [] },
              some do_nothing,
            )
        | some ps ↦ do (ps', e) ← add_part codec ps p; after_add h ps' e
      ]

  -- `for _, part := range h.randomHeaderBuffer { h.AddPart(part) }`
  unfoldable pub add_buffered : List Part → HeightData B → Call (HeightData B)
  unfolding height_add_part
  add_buffered [] h = returns h
  add_buffered (p ∷ ps) h = do (h', _) ← height_add_part h p; add_buffered ps h'

  abbrev pub take_proposal : HeightData B → Proposal → Call (HeightData B × Option AddError)
  take_proposal h p = do
    ps ← new_part_set p.header p.block_header_hash
    h' ← add_buffered h.random_header_buffer (record h { proposal = some p; part_set = some ps })
    returns (h', none)

  module _ (wire : Wire) where
    -- The verifier of the shard, nil where there is none: `Verify` then panics.
    abbrev verify_mine : HeightData B → Bytes → Bytes → ℤ → Call Bool
    verify_mine h sig msg i = elim (my_verifier h) [ none ↦ panics | some v ↦ verify v sig msg i ]

    unfoldable pub add_proposal :
        HeightData B → Proposal → ℤ → Call (HeightData B × Option AddError)
    unfolding new_part_set add_buffered lookup verify proposal_sign_bytes bytes_eq
    add_proposal h p index = elim h.proposal [
      | some _ ↦ returns (h, some do_nothing)
      | none ↦
          if not (eqb_ℤ h.height p.header.height) || not (eqb_ℤ h.round p.header.round)
          then returns (h, some do_nothing)
          else if not (eqb_ℤ p.proposer_index index)
          then returns (h, some wrong_proposer)
          else if not (bytes_eq p.header.chain_id h.my_chain_id)
          then returns (h, some wrong_chain)
          else (do
            ok ← verify_mine h p.signature (proposal_sign_bytes wire p) index
            if ok then take_proposal h p else returns (h, some wrong_signature))
    ]

    -- The guards that a prevote and a precommit pass, and the weight of the voter.
    abbrev pub admit_vote : HeightData B → StepVote → Call (Option AddError × ℕ)
    admit_vote h p =
        if not (eqb_ℤ h.height p.height) || not (eqb_ℤ h.round p.round)
        then returns (some do_nothing, zero)
        else (do
          n ← size_of (my_verifier h)
          if is_negative p.validator_index || not (ltb_ℤ p.validator_index (pos n))
              then returns (some wrong_index, zero)
              else (do
                ok ← verify_mine h p.signature (vote_sign_bytes wire p) p.validator_index
                if ok
                    then (do
                      w ← peer_vote (lookup h.my_chain_id h.peer_list) p.validator_index
                      returns (none, w))
                    else returns (some wrong_signature, zero)))

    unfoldable pub add_prevote : HeightData B → StepVote → Call (HeightData B × Option AddError)
    unfolding verify vote_sign_bytes add_vote lookup
    add_prevote h p = do
      (e, w) ← admit_vote h p
      elim e [
        | some err ↦ returns (h, some err)
        | none ↦ do
          (vs, e') ← add_vote h.prevotes (as_vote p) w
          returns (record h { prevotes = vs }, as_vote_error e')
      ]

    unfoldable pub add_precommit : HeightData B → StepVote → Call (HeightData B × Option AddError)
    unfolding verify vote_sign_bytes add_vote lookup
    add_precommit h p = do
      (e, w) ← admit_vote h p
      elim e [
        | some err ↦ returns (h, some err)
        | none ↦ do
          (vs, e') ← add_vote h.precommits (as_vote p) w
          returns (record h { precommits = vs }, as_vote_error e')
      ]

  -- A proposal that is nil panics.
  module _ (aggregate_signatures : List Bytes → Option Bytes) where
    unfoldable pub generate_aggregate_precommit_signature : HeightData B → Call PrecommitAggregated
    unfolding get_maj23_aggre_sig new_precommit_aggregated set_code
    generate_aggregate_precommit_signature h = do
      let (hash, ok) = get_maj23 h.precommits
      (sig, bits) ← get_maj23_aggre_sig aggregate_signatures h.precommits
      p ← read_elem h.proposal
      pa ← new_precommit_aggregated bits p.header hash sig
      returns (set_code ok pa)
