-- ===== src/Pyramid/Votes.antt =====
-- source/pyramid/consensus/constypes/vote.go: the messages of a round. A prevote and a precommit have
-- the same fields. The bytes of the protobuf messages that are signed are parameters: they are
-- those of the message with an empty signature, and for a vote with the index -1.
use urd_code.Prelude.{
  ℕ, Bool, true, false, not, Option, none, some, [], ◌==◌, length, if◌then◌else◌,
}
use urd_code.Prelude.Int.{ℤ, negsuc, is_negative}
use urd_code.Prelude.Bytes.{Bytes}
use urd_code.Prelude.Calls.{Call, returns, ◌>>=◌}
use urd_code.BitVector.{BitVector, new_bit_array_from_byte}
use urd_code.Signer.{Verifier, verify_aggregate_signature}
use urd_code.Pyramid.VoteSet
use urd_code.Pyramid.Parts.{PartSetHeader, validate_header}

pub data VoteType : Type 0 where
  nil proposal prevote precommit precommit_aggregated other : VoteType

pub data MessageError : Type 0 where
  wrong_type negative_index not_hash bad_header no_bit_vector : MessageError

abbrev pub hash_size : ℕ
hash_size = 32

pub record Proposal : Type 0 where
  pub vote_type : VoteType
  pub header : PartSetHeader
  pub proposer_index : ℤ
  pub block_header_hash : Bytes
  pub signature : Bytes

unfoldable pub new_proposal : PartSetHeader → ℤ → Bytes → Proposal
new_proposal header proposer_index hash = record {
  vote_type = proposal;
  header = header;
  proposer_index = proposer_index;
  block_header_hash = hash;
  signature = [];
}

abbrev is_proposal : VoteType → Bool
is_proposal proposal = true
is_proposal _ = false

abbrev bad_header_of {ℓ} : {A : Type ℓ} → Option A → Option MessageError
bad_header_of none = none
bad_header_of (some _) = some bad_header

unfoldable pub validate_proposal : Proposal → Option MessageError
unfolding validate_header
validate_proposal p =
    if not (is_proposal p.vote_type)
    then some wrong_type
    else if is_negative p.proposer_index
    then some negative_index
    else if not (length p.block_header_hash == hash_size)
    then some not_hash
    else bad_header_of (validate_header hash_size p.header)

-- `Prevote` and `Precommit`. The code is `CodeTypeOK` or not.
pub record StepVote : Type 0 where
  pub vote_type : VoteType
  pub is_ok : Bool
  pub height : ℤ
  pub round : ℤ
  pub block_header_hash : Bytes
  pub signature : Bytes
  pub validator_index : ℤ

unfoldable pub new_prevote : ℤ → ℤ → Bytes → ℤ → StepVote
new_prevote height round hash index = record {
  vote_type = prevote;
  is_ok = true;
  height = height;
  round = round;
  block_header_hash = hash;
  signature = [];
  validator_index = index;
}

unfoldable pub new_precommit : ℤ → ℤ → Bytes → ℤ → StepVote
new_precommit height round hash index = record {
  vote_type = precommit;
  is_ok = true;
  height = height;
  round = round;
  block_header_hash = hash;
  signature = [];
  validator_index = index;
}

unfoldable pub set_ok : Bool → StepVote → StepVote
set_ok ok p = record p { is_ok = ok }

abbrev is_prevote : VoteType → Bool
is_prevote prevote = true
is_prevote _ = false

abbrev is_precommit : VoteType → Bool
is_precommit precommit = true
is_precommit _ = false

unfoldable pub validate_prevote : StepVote → Option MessageError
validate_prevote p =
    if not (is_prevote p.vote_type)
    then some wrong_type
    else if not (length p.block_header_hash == hash_size)
    then some not_hash
    else none

unfoldable pub validate_precommit : StepVote → Option MessageError
validate_precommit p =
    if not (is_precommit p.vote_type)
    then some wrong_type
    else if not (length p.block_header_hash == hash_size)
    then some not_hash
    else none

-- The interface `Vote` of a prevote or a precommit.
abbrev pub as_vote : StepVote → VoteSet.Vote
as_vote p = record {
  block_header_hash = p.block_header_hash;
  index = p.validator_index;
  is_ok = p.is_ok;
  signature = p.signature;
}

pub record PrecommitAggregated : Type 0 where
  pub vote_type : VoteType
  pub is_ok : Bool
  pub validator_bit_vector : Option BitVector
  pub header : PartSetHeader
  pub block_header_hash : Bytes
  pub aggregated_signatures : Bytes

unfoldable pub new_precommit_aggregated :
    Bytes → PartSetHeader → Bytes → Bytes → Call PrecommitAggregated
unfolding new_bit_array_from_byte
new_precommit_aggregated bits header hash signatures = do
  bv ← new_bit_array_from_byte bits
  returns (record {
    vote_type = precommit_aggregated;
    is_ok = true;
    validator_bit_vector = bv;
    header = header;
    block_header_hash = hash;
    aggregated_signatures = signatures;
  })

unfoldable pub set_code : Bool → PrecommitAggregated → PrecommitAggregated
set_code ok p = record p { is_ok = ok }

abbrev is_aggregated : VoteType → Bool
is_aggregated precommit_aggregated = true
is_aggregated _ = false

abbrev is_nil {ℓ} : {A : Type ℓ} → Option A → Bool
is_nil none = true
is_nil (some _) = false

unfoldable pub validate_aggregated : PrecommitAggregated → Option MessageError
unfolding validate_header
validate_aggregated p =
    if not (is_aggregated p.vote_type)
    then some wrong_type
    else if is_nil p.validator_bit_vector
    then some no_bit_vector
    else if not (is_nil (validate_header hash_size p.header))
    then some bad_header
    else if not (length p.block_header_hash == hash_size)
    then some not_hash
    else none

-- The precommit that the signatures are for.
unfoldable pub precommit_of : PrecommitAggregated → StepVote
unfolding new_precommit set_ok
precommit_of p =
    set_ok p.is_ok (new_precommit p.header.height p.header.round p.block_header_hash (negsuc 0))

-- `proto.Marshal` of the messages that are signed.
pub record Wire : Type 0 where
  pub proposal_bytes : VoteType → PartSetHeader → ℤ → Bytes → Bytes
  pub vote_bytes : VoteType → Bool → ℤ → ℤ → Bytes → Bytes

module _ (wire : Wire) where
  unfoldable pub proposal_sign_bytes : Proposal → Bytes
  proposal_sign_bytes p =
      wire.proposal_bytes p.vote_type p.header p.proposer_index p.block_header_hash

  unfoldable pub vote_sign_bytes : StepVote → Bytes
  vote_sign_bytes p = wire.vote_bytes p.vote_type p.is_ok p.height p.round p.block_header_hash

  unfoldable pub verify_signatures : PrecommitAggregated → Option Verifier → Bytes → Call Bool
  unfolding precommit_of vote_sign_bytes verify_aggregate_signature
  verify_signatures p none bits = returns false
  verify_signatures p (some verifier) bits =
      verify_aggregate_signature verifier p.aggregated_signatures (vote_sign_bytes (precommit_of p))
        bits
