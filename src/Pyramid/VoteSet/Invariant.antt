-- ===== src/Pyramid/VoteSet/Invariant.antt =====
-- source/pyramid/consensus/constypes/vote_set.go: the invariant of a vote set, over its bits, votes
-- and counters and the recorded majority.
use urd_code.Prelude.{
  ℕ, zero, suc, ◌*◌, ◌/◌, ◌^◌, ◌≤◌, ◌<◌, ◌≡◌, refl, ◌∙◌, sym, Bool, true, false, Option, none, some,
  List, arith, get_elem?, replicate, length, length-replicate,
}
use urd_code.Prelude.Bytes.{Bytes}
use urd_code.Prelude.Maps.{lookup}
use urd_code.BitVector.{BitVector, bit, get_index, set_index}
use urd_code.BitVector
use urd_code.BitVector.Index.{new_bit_vector-IsValid, bit-new_bit_vector}
use urd_code.Pyramid.VoteSet.{Vote, VoteSet, new_vote_set, no_votes, counters, at_code}
use urd_code.Pyramid.VoteSet.Tally.{sum, tally, tally-replicate}

abbrev pub is_some : Option (Option Vote) → Bool
is_some none = false
is_some (some none) = false
is_some (some (some _)) = true

-- The bits, the votes and the counters agree. `ws` are the weights of the validators, and twice
-- their sum fits an int32.
pub record IsCounted (ws : List ℕ) (vs : VoteSet) (bv : BitVector) : Type 0 where
  pub num : vs.validator_num ≡ length ws
  pub total : vs.total_votes ≡ sum ws
  pub small : sum ws < 2 ^ 30
  pub vector : vs.bit_vector ≡ some bv
  pub vector_valid : BitVector.IsValid bv
  pub vector_size : bv.bits ≡ length ws
  pub slots : length vs.votes ≡ length ws
  pub seen : (i : ℕ) → i < length ws → bit bv i ≡ is_some (get_elem? vs.votes i)
  pub counted :
      (k : Bytes) (c : Bool)
      → at_code c (counters k vs.block_header_hash_cnt) ≡ tally k c ws vs.votes

pub record IsValid (ws : List ℕ) (vs : VoteSet) (bv : BitVector) : Type 0 where
  pub counts : IsCounted ws vs bv
  pub open counts use *
  pub found : vs.has_mj23 ≡ true → 2 * sum ws / 3 < tally vs.mj23_key vs.mj23_code ws vs.votes
  pub missed : vs.has_mj23 ≡ false → (k : Bytes) (c : Bool) → tally k c ws vs.votes ≤ 2 * sum ws / 3

get_elem?-replicate : (n i : ℕ) → is_some (get_elem? (replicate n none) i) ≡ false
get_elem?-replicate zero i = refl
get_elem?-replicate (suc n) zero = refl
get_elem?-replicate (suc n) (suc i) = get_elem?-replicate n i

at_code-no_votes : (c : Bool) → at_code c no_votes ≡ 0
at_code-no_votes true = refl
at_code-no_votes false = refl

-- A fresh vote set for the validators' total is valid.
pub new_vote_set-IsValid :
    (ws : List ℕ)
    → sum ws < 2 ^ 30
    → (bv : BitVector) × IsValid ws (new_vote_set (length ws) (sum ws)) bv
unfolding new_vote_set lookup
new_vote_set-IsValid ws h =
    let (bv, e, sized, valid) = new_bit_vector-IsValid (length ws) in
    (
      bv,
      record {
        counts = record {
          num = refl;
          total = refl;
          small = h;
          vector = e;
          vector_valid = valid;
          vector_size = sized;
          slots = length-replicate (length ws) none;
          seen = λ i lt.
              bit-new_bit_vector (length ws) i bv e ∙ sym (get_elem?-replicate (length ws) i);
          counted = λ k c. at_code-no_votes c ∙ sym (tally-replicate k c ws (length ws));
        };
        found = λ bad. cc;
        missed = λ _ k c. omega (arith, tally-replicate k c ws (length ws));
      },
    )
