-- ===== src/Hotstuff/Votes.antt =====
-- source/core/hotstuff/votes.go: votes and aggregated votes.
use urd_code.Prelude.{Bool, not, ◌&&◌, Option, none, some, List, [], if◌then◌else◌, leb}
use urd_code.Prelude.Int.{ℤ, pos, negsuc, eqb_ℤ, is_negative}
use urd_code.Prelude.Bytes.{Bytes}
use urd_code.BitVector.{BitVector, size}

-- The errors of source/utils/flag.go, and the one that `getMaj23` makes.
pub data Error : Type 0 where
  invalid_vote_code invalid_validator_index invalid_view invalid_round : Error
  invalid_sign duplicated_vote no_maj23 aggregation : Error

abbrev pub code_type_ok : ℤ
code_type_ok = pos 1

abbrev pub code_type_reject : ℤ
code_type_reject = pos 2

pub record Vote : Type 0 where
  pub code : ℤ
  pub view : ℤ
  pub round : ℤ
  pub for_hash : Bytes
  pub for_necessary_data : List Bytes
  pub sign : Bytes
  pub validator_index : ℤ

unfoldable pub new_vote : ℤ → ℤ → Bytes → List Bytes → ℤ → Vote
new_vote view round hash necessary index = record {
  code = code_type_ok;
  view = view;
  round = round;
  for_hash = hash;
  for_necessary_data = necessary;
  sign = [];
  validator_index = index;
}

abbrev pub is_ok : Vote → Bool
is_ok v = eqb_ℤ v.code code_type_ok

abbrev pub set_ok : Vote → Vote
set_ok v = record v { code = code_type_ok }

abbrev pub set_reject : Vote → Vote
set_reject v = record v { code = code_type_reject }

unfoldable pub validate_basic : Vote → Option Error
validate_basic v =
    if not (eqb_ℤ v.code code_type_ok) && not (eqb_ℤ v.code code_type_reject)
    then some invalid_vote_code
    else if is_negative v.validator_index
    then some invalid_validator_index
    else if is_negative v.round
    then some invalid_round
    else if is_negative v.view
    then some invalid_view
    else none

pub record AggregatedVote : Type 0 where
  pub code : ℤ
  pub view : ℤ
  pub round : ℤ
  pub for_hash : Bytes
  pub for_necessary_data : List Bytes
  pub sign : Bytes
  pub signer_indexer : Option BitVector

abbrev pub get_aggregated : Vote → Option BitVector → AggregatedVote
get_aggregated v bv = record {
  code = v.code;
  view = v.view;
  round = v.round;
  for_hash = v.for_hash;
  for_necessary_data = v.for_necessary_data;
  sign = v.sign;
  signer_indexer = bv;
}

unfoldable pub validate_basic_aggregated : AggregatedVote → Option Error
unfolding size
validate_basic_aggregated v =
    if not (eqb_ℤ v.code code_type_ok) && not (eqb_ℤ v.code code_type_reject)
    then some invalid_vote_code
    else if leb (size v.signer_indexer) 0
    then some invalid_validator_index
    else if is_negative v.round
    then some invalid_round
    else if is_negative v.view
    then some invalid_view
    else none

-- `protovote.Vote` and `protovote.AggregatedVote`, marshalled; both are generated code.
pub record Wire : Type 0 where
  pub vote_bytes : Vote → Bytes
  pub aggregated_bytes : AggregatedVote → Bytes

module _ (wire : Wire) where
  -- The bytes that a validator signs: the vote with no signature and the index -1.
  abbrev pub sign_bytes : Vote → Bytes
  sign_bytes v = wire.vote_bytes (record v { sign = []; validator_index = negsuc 0 })

  abbrev pub sign_bytes_aggregated : AggregatedVote → Bytes
  sign_bytes_aggregated v = wire.aggregated_bytes (record v { sign = []; signer_indexer = none })
