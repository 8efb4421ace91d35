-- ===== src/Pyramid/VoteSet/Tests.antt =====
-- Runs of source/pyramid/consensus/constypes/vote_set.go: four validators of weight 1.
use mathlib.Core.Path.{subst}
use urd_code.Prelude.{
  ℕ, ◌*◌, ◌<◌, ◌≡◌, ◌≢◌, ◌↔◌, refl, true, Option, none, some, List, [], ◌∷◌, arith, get_elem?,
}
use urd_code.Prelude.Int.{pos}
use urd_code.Prelude.Bytes.{Bytes}
use urd_code.Prelude.Calls.{returns, panics}
use urd_code.BitVector.{BitVector, bit, byte}
use urd_code.BitVector
use urd_code.Pyramid.VoteSet.{VoteError, Vote, VoteSet, new_vote_set, add_vote, get_maj23_aggre_sig}
use urd_code.Pyramid.VoteSet.Tally.{shared}
use urd_code.Pyramid.VoteSet.Invariant.{IsValid, new_vote_set-IsValid}
use urd_code.Pyramid.VoteSet.Majority.{
  Casts, AllCast, Decides, add_votes, add_votes-IsValid, add_votes-Decides, majorities_share,
  add_vote-twice,
}
use urd_code.Pyramid.VoteSet.Aggregate.{majority_signatures, is_marked, get_maj23_aggre_sig-names}

abbrev weights : List ℕ
weights = 1 ∷ 1 ∷ 1 ∷ 1 ∷ []

abbrev vote_for : ℕ → ℕ → Vote
vote_for block i = record {
  block_header_hash = block ∷ [];
  index = pos i;
  is_ok = true;
  signature = i ∷ [];
}

abbrev three : List (Vote × ℕ)
three = (vote_for 7 0, 1) ∷ (vote_for 7 1, 1) ∷ (vote_for 7 2, 1) ∷ []

abbrev start : VoteSet
start = new_vote_set 4 4

-- The set after the votes.
unfoldable after : List (Vote × ℕ) → VoteSet
unfolding add_votes new_vote_set
after cast = elim (add_votes start cast) [ returns vs ↦ vs | panics ↦ start ]

casts_0 : Casts weights (vote_for 7 0) 1
casts_0 = record { validator = 0; at_validator = refl; weight = refl }

casts_1 : Casts weights (vote_for 7 1) 1
casts_1 = record { validator = 1; at_validator = refl; weight = refl }

casts_2 : Casts weights (vote_for 7 2) 1
casts_2 = record { validator = 2; at_validator = refl; weight = refl }

abbrev casts_3 : Casts weights (vote_for 9 3) 1
casts_3 = record { validator = 3; at_validator = refl; weight = refl }

abbrev casts_again : Casts weights (vote_for 9 0) 1
casts_again = record { validator = 0; at_validator = refl; weight = refl }

three_cast : AllCast weights three
three_cast = (casts_0, (casts_1, (casts_2, tt)))

after-IsValid :
    (cast : List (Vote × ℕ))
    → AllCast weights cast
    → add_votes start cast ≡ returns (after cast)
    → (bv : BitVector) × IsValid weights (after cast) bv
after-IsValid cast h e =
    let (bv, fresh) = new_vote_set-IsValid weights (omega arith) in
    let (vs, bv', e', valid) = add_votes-IsValid weights cast start bv fresh h in
    (bv', subst (λ u. IsValid weights u bv') (cc (e', e)) valid)

won : add_votes start three ≡ returns (after three)
unfolding after
won = refl

valid_three : (bv : BitVector) × IsValid weights (after three) bv
valid_three = after-IsValid three three_cast won

test_majority : (after three).has_mj23 ≡ true
unfolding after
test_majority = refl

add_votes-Decides_example :
    (vs : VoteSet) × (add_votes (new_vote_set 4 4) three ≡ returns vs) × Decides weights vs
add_votes-Decides_example = add_votes-Decides weights three (omega arith) three_cast

majorities_share_example :
    4
    < 3
      * shared
          (after three).mj23_key
          (after three).mj23_code
          (after three).mj23_key
          (after three).mj23_code
          weights
          (after three).votes
          (after three).votes
majorities_share_example =
    majorities_share weights three three (after three) (after three) (omega arith) three_cast
      three_cast won won test_majority test_majority

casts_0_again : Casts weights (vote_for 9 0) 1
casts_0_again = record { validator = 0; at_validator = refl; weight = refl }

add_vote-twice_example :
    (vs' : VoteSet) × (reply : Option VoteError) × (add_vote start (vote_for 7 0) 1
      ≡ returns (vs', none))
    × (add_vote vs' (vote_for 9 0) 1 ≡ returns (vs', reply))
    × ((reply ≡ none)
        ↔ (((vote_for 7 0).block_header_hash ≢ (vote_for 9 0).block_header_hash) × (true ≡ true)))
unfolding casts_0 casts_0_again new_vote_set
add_vote-twice_example =
    add_vote-twice weights start (new_vote_set-IsValid weights (omega arith)).0 (vote_for 7 0)
      (vote_for 9 0) 1 (new_vote_set-IsValid weights (omega arith)).1 casts_0 casts_0_again refl
      refl

-- What a fourth vote leaves.
unfoldable four : VoteSet
unfolding after add_vote
four = elim (add_vote (after three) (vote_for 9 3) 1) [
  | returns (vs, _) ↦ vs
  | panics ↦ after three
]

four_returns : add_vote (after three) (vote_for 9 3) 1 ≡ returns (four, none)
unfolding four
four_returns = refl

-- An aggregation that takes the first signature.
abbrev some_first : List Bytes → Option Bytes
some_first [] = none
some_first (sig ∷ _) = some sig

first_signature : some_first (majority_signatures (after three) (after three).votes) ≡ some (0 ∷ [])
unfolding after majority_signatures
first_signature = refl

get_maj23_aggre_sig-names_example :
    (named : BitVector) × (get_maj23_aggre_sig some_first (after three)
      ≡ returns (0 ∷ [], byte (some named)))
    × BitVector.IsValid named
    × (named.bits ≡ 4)
    × ((i : ℕ) → i < 4 → bit named i ≡ is_marked (after three) (get_elem? (after three).votes i))
get_maj23_aggre_sig-names_example =
    get_maj23_aggre_sig-names weights (after three) valid_three.0 valid_three.1 some_first (0 ∷ [])
      first_signature
