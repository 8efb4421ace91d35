-- ===== src/Hotstuff/Tests.antt =====
-- Runs of source/core/hotstuff/height_datas.go: three validators of weight 1.
use urd_code.Prelude.{arith, ℕ, ◌≡◌, refl, true, Option, none, some, List, [], ◌∷◌}
use urd_code.Prelude.Int.{ℤ, pos}
use urd_code.Prelude.Bytes.{Bytes}
use urd_code.Prelude.Calls.{returns}
use urd_code.BitVector.{BitVector}
use urd_code.Signer.{Verifier}
use urd_code.Hotstuff.Votes.{Error, Vote, AggregatedVote, Wire, validate_basic}
use urd_code.Hotstuff.Package.{
  HeightDataPackage, new_height_data_package, sum_votes, add_vote, maj23_code, get_maj23,
}
use urd_code.Hotstuff.Quorum.{
  IsValid, weight_of, new_height_data_package-IsValid, add_vote-IsValid_package,
}
use urd_code.Hotstuff.Joins.{all_signatures, get_maj23-joins_all}

abbrev verifier : Verifier
verifier = record { keys = 3; verifies = λ i sig msg. true; verifies_sum = λ is sig msg. true }

abbrev wire : Wire
wire = record { vote_bytes = λ v. v.for_hash; aggregated_bytes = λ v. v.for_hash }

abbrev weights : List ℕ
weights = 1 ∷ 1 ∷ 1 ∷ []

abbrev fresh : HeightDataPackage
fresh = new_height_data_package verifier weights (pos 1) (pos 0)

fresh_valid : (bv : BitVector) × IsValid fresh bv
fresh_valid = new_height_data_package-IsValid verifier weights (pos 1) (pos 0) refl

abbrev vote_of : ℤ → ℕ → Vote
vote_of code i = record {
  code = code;
  view = pos 1;
  round = pos 0;
  for_hash = [];
  for_necessary_data = [];
  sign = i ∷ [];
  validator_index = pos i;
}

add_vote-IsValid_package_example :
    (hdp' : HeightDataPackage) × (reply : Option Error) × (bv' : BitVector) × (add_vote wire fresh
        (vote_of (pos 1) 0)
      ≡ returns (hdp', reply))
    × IsValid hdp' bv'
unfolding validate_basic
add_vote-IsValid_package_example =
    add_vote-IsValid_package wire fresh fresh_valid.0 (vote_of (pos 1) 0) fresh_valid.1 refl

abbrev two_votes : List Vote
two_votes = vote_of (pos 1) 0 ∷ vote_of (pos 1) 1 ∷ []

-- Two votes accept and one rejects.
abbrev bits : BitVector
bits = record { bits = 3; elems = 7 ∷ [] }

abbrev split : HeightDataPackage
split = record {
  proposal_hash = [];
  view = pos 1;
  round = pos 0;
  votes = some (vote_of (pos 1) 0) ∷ some (vote_of (pos 1) 1) ∷ some (vote_of (pos 2) 2) ∷ [];
  votes_bit_vector = some bits;
  votes_total = 2;
  reject_total = 1;
  votes_needed = 3;
  per_vote = weights;
  validator_set = verifier;
  agg_vote = none;
}

split-IsValid : IsValid split bits
unfolding weight_of sum_votes
split-IsValid = record {
  slots = refl;
  weights = refl;
  vector = refl;
  vector_valid = record { sized = refl; bytes = (omega arith, tt) };
  vector_size = refl;
  accepted = refl;
  rejected = refl;
  needed = refl;
}

abbrev accepting : Vote
accepting = record {
  code = pos 1;
  view = pos 1;
  round = pos 0;
  for_hash = [];
  for_necessary_data = [];
  sign = [];
  validator_index = pos 0;
}

accepts : maj23_code split ≡ some accepting
unfolding maj23_code
accepts = refl

abbrev first_of_three : List Bytes → Option Bytes
first_of_three (a ∷ b ∷ c ∷ []) = some a
first_of_three _ = none

joins : first_of_three (all_signatures split.votes) ≡ some (0 ∷ [])
unfolding all_signatures
joins = refl

get_maj23-joins_all_example :
    (agg : AggregatedVote) × (get_maj23 first_of_three split
      ≡ returns (record split { agg_vote = some agg }, some agg, none))
    × (agg.sign ≡ 0 ∷ [])
    × (agg.code ≡ pos 1)
get_maj23-joins_all_example =
    get_maj23-joins_all split bits first_of_three accepting (0 ∷ []) split-IsValid refl accepts
      joins
