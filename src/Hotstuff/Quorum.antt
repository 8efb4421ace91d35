-- ===== src/Hotstuff/Quorum.antt =====
-- source/core/hotstuff/height_datas.go: the counters of a package and its quorum.
use urd_code.Prelude.{
  ℕ, zero, suc, ◌+◌, ◌<◌, ◌≡◌, refl, ◌∙◌, sym, ◌⊎◌, inl, inr, Bool, true, false, ◌&&◌, Option, none,
  some, List, [], ◌∷◌, arith, if◌then◌else◌, bool_eq, ltb, get_elem?, set, length, replicate,
  length-set, length-replicate, Bool-cases,
}
use urd_code.Prelude.Int.{ℤ, pos, negsuc, is_negative}
use urd_code.Prelude.Bytes.{Bytes}
use urd_code.Prelude.Calls.{returns}
use urd_code.BitVector.{BitVector, bit, set_index, new_bit_vector}
use urd_code.BitVector
use urd_code.BitVector.Index.{
  new_bit_vector-IsValid, set_index-eq-written, written, written-IsValid, bits-written,
}
use urd_code.Signer.{Verifier, verify}
use urd_code.Hotstuff.Votes.{
  Error, Vote, Wire, is_ok, invalid_sign, invalid_vote_code, duplicated_vote, sign_bytes,
  validate_basic,
}
use urd_code.Hotstuff.Package.{
  HeightDataPackage, new_height_data_package, sum_votes, count_vote, matches, admit, add_vote,
}

-- The weight of the recorded votes whose code is OK, or is not.
unfoldable pub weight_of : Bool → List ℕ → List (Option Vote) → ℕ
weight_of ok [] vs = 0
weight_of ok (w ∷ ws) [] = 0
weight_of ok (w ∷ ws) (none ∷ vs) = weight_of ok ws vs
weight_of ok (w ∷ ws) (some v ∷ vs) = (if bool_eq (is_ok v) ok then w else 0) + weight_of ok ws vs

-- The package has a slot, a weight and a bit for each key, and the totals are the weights of the
-- votes that are recorded.
pub record IsValid (hdp : HeightDataPackage) (bv : BitVector) : Type 0 where
  pub slots : length hdp.votes ≡ hdp.validator_set.keys
  pub weights : length hdp.per_vote ≡ hdp.validator_set.keys
  pub vector : hdp.votes_bit_vector ≡ some bv
  pub vector_valid : BitVector.IsValid bv
  pub vector_size : bv.bits ≡ hdp.validator_set.keys
  pub accepted : hdp.votes_total ≡ weight_of true hdp.per_vote hdp.votes
  pub rejected : hdp.reject_total ≡ weight_of false hdp.per_vote hdp.votes
  pub needed : hdp.votes_needed ≡ sum_votes hdp.per_vote

weight_of-replicate : (ok : Bool) (ws : List ℕ) (n : ℕ) → weight_of ok ws (replicate n none) ≡ 0
unfolding weight_of
weight_of-replicate ok [] n = refl
weight_of-replicate ok (w ∷ ws) zero = refl
weight_of-replicate ok (w ∷ ws) (suc n) = weight_of-replicate ok ws n

weight_of-set :
    (ok : Bool) (ws : List ℕ) (vs : List (Option Vote)) (i w : ℕ) (v : Vote)
    → get_elem? ws i ≡ some w
    → get_elem? vs i ≡ some none
    → weight_of ok ws (set vs i (some v))
      ≡ weight_of ok ws vs + (if bool_eq (is_ok v) ok then w else 0)
unfolding weight_of
weight_of-set ok [] vs i w v hw hv = cc
weight_of-set ok (x ∷ ws) [] i w v hw hv = cc
weight_of-set ok (x ∷ ws) (none ∷ vs) zero w v hw hv = ground arith
weight_of-set ok (x ∷ ws) (some u ∷ vs) zero w v hw hv = cc
weight_of-set ok (x ∷ ws) (none ∷ vs) (suc i) w v hw hv = weight_of-set ok ws vs i w v hw hv
weight_of-set ok (x ∷ ws) (some u ∷ vs) (suc i) w v hw hv =
    ground (arith, weight_of-set ok ws vs i w v hw hv)

-- The new package of a view and round is valid.
pub new_height_data_package-IsValid :
    (vs : Verifier) (per_vote : List ℕ) (view round : ℤ)
    → length per_vote ≡ vs.keys
    → (bv : BitVector) × IsValid (new_height_data_package vs per_vote view round) bv
unfolding new_height_data_package
new_height_data_package-IsValid vs per_vote view round h =
    let (bv, e, sized, valid) = new_bit_vector-IsValid vs.keys in
    (
      bv,
      record {
        slots = length-replicate vs.keys none;
        weights = h;
        vector = e;
        vector_valid = valid;
        vector_size = sized;
        accepted = sym (weight_of-replicate true per_vote vs.keys);
        rejected = sym (weight_of-replicate false per_vote vs.keys);
        needed = refl;
      },
    )

slot-cases :
    (vs : List (Option Vote)) (i : ℕ)
    → i < length vs
    → (get_elem? vs i ≡ some none) ⊎ ((raw : Vote) × (get_elem? vs i ≡ some (some raw)))
slot-cases [] i h = absurd (omega arith)
slot-cases (none ∷ vs) zero h = inl refl
slot-cases (some v ∷ vs) zero h = inr (v, refl)
slot-cases (v ∷ vs) (suc i) h = slot-cases vs i (omega arith)

weight_at : (ws : List ℕ) (i : ℕ) → i < length ws → (w : ℕ) × (get_elem? ws i ≡ some w)
weight_at [] i h = absurd (omega arith)
weight_at (w ∷ ws) zero h = (w, refl)
weight_at (w ∷ ws) (suc i) h = weight_at ws i (omega arith)

module _ (hdp : HeightDataPackage) (bv : BitVector) (valid : IsValid hdp bv) (vote : Vote) (i : ℕ)
    (at_i : vote.validator_index ≡ pos i) (below : i < hdp.validator_set.keys) where
  -- The package after a vote is counted.
  counted : ℕ → HeightDataPackage
  counted w = record hdp {
    votes_total = if is_ok vote then hdp.votes_total + w else hdp.votes_total;
    reject_total = if is_ok vote then hdp.reject_total else hdp.reject_total + w;
    votes = set hdp.votes i (some vote);
    votes_bit_vector = some (written bv i true);
  }

  module _ (w : ℕ) (weight : get_elem? hdp.per_vote i ≡ some w)
      (fresh : get_elem? hdp.votes i ≡ some none) where
    marks :
        set_index hdp.votes_bit_vector vote.validator_index true
        ≡ returns (some (written bv i true), true)
    marks =
        rw (valid.vector, at_i)
          (set_index-eq-written bv i valid.vector_valid (omega (arith, valid.vector_size)) true)

    count_vote-eq : count_vote hdp vote ≡ returns (counted w, none)
    unfolding count_vote counted
    count_vote-eq = ground (arith, marks)

    counted-IsValid : IsValid (counted w) (written bv i true)
    unfolding counted
    counted-IsValid = record {
      slots = length-set hdp.votes i (some vote) ∙ valid.slots;
      weights = valid.weights;
      vector = refl;
      vector_valid =
          written-IsValid bv i valid.vector_valid (omega (arith, valid.vector_size)) true;
      vector_size = bits-written bv i true ∙ valid.vector_size;
      accepted =
          ground (
            arith,
            valid.accepted,
            weight_of-set true hdp.per_vote hdp.votes i w vote weight fresh,
          );
      rejected =
          ground (
            arith,
            valid.rejected,
            weight_of-set false hdp.per_vote hdp.votes i w vote weight fresh,
          );
      needed = valid.needed;
    }

  admit_free : get_elem? hdp.votes i ≡ some none → admit hdp vote ≡ count_vote hdp vote
  admit_free e = ground (arith, at_i)

  admit_taken :
      (raw : Vote)
      → get_elem? hdp.votes i ≡ some (some raw)
      → admit hdp vote ≡ returns (hdp, some duplicated_vote)
  admit_taken raw e = ground (arith, at_i)

  -- A signed vote for the package's view, round and proposal, in a slot that is free or taken.
  admitted :
      (hdp' : HeightDataPackage) × (reply : Option Error) × (bv' : BitVector) × (admit hdp vote
        ≡ returns (hdp', reply))
      × IsValid hdp' bv'
  admitted =
      let (w, weight) = weight_at hdp.per_vote i (omega (arith, valid.weights)) in
      elim (slot-cases hdp.votes i (omega (arith, valid.slots))) [
        | inl fresh ↦ (
          counted w,
          none,
          written bv i true,
          admit_free fresh ∙ count_vote-eq w weight fresh,
          counted-IsValid w weight fresh,
        )
        | inr (raw, e) ↦ (hdp, some duplicated_vote, bv, admit_taken raw e, valid)
      ]

nonnegative : (z : ℤ) → is_negative z ≡ false → (i : ℕ) × (z ≡ pos i)
nonnegative (pos i) h = (i, refl)
nonnegative (negsuc n) h = cc

index-cases : (vote : Vote) → validate_basic vote ≡ none → (i : ℕ) × (vote.validator_index ≡ pos i)
unfolding validate_basic
index-cases vote basic = nonnegative vote.validator_index (ground arith)

verify-pos :
    (s : Verifier) (sig msg : Bytes) (i : ℕ)
    → verify s sig msg (pos i) ≡ returns (ltb i s.keys && s.verifies i sig msg)
unfolding verify
verify-pos s sig msg i = refl

add_vote_at :
    (wire : Wire) (hdp : HeightDataPackage) (bv : BitVector) (vote : Vote) (i : ℕ)
    → IsValid hdp bv
    → vote.validator_index ≡ pos i
    → (hdp' : HeightDataPackage) × (reply : Option Error) × (bv' : BitVector) × (add_vote wire hdp
          vote
        ≡ returns (hdp', reply))
      × IsValid hdp' bv'
unfolding add_vote
add_vote_at wire hdp bv vote i valid at_i =
    elim (Bool-cases (
      ltb i hdp.validator_set.keys
      && hdp.validator_set.verifies i vote.sign (sign_bytes wire vote))) [
        | inr bad ↦ (hdp, some invalid_sign, bv, ground (arith, at_i), valid)
        | inl good ↦ elim (Bool-cases (matches hdp vote)) [
          | inr other ↦ (hdp, some invalid_vote_code, bv, ground (arith, at_i), valid)
          | inl same ↦
              let (hdp', reply, bv', e, valid') =
                admitted hdp bv valid vote i at_i (ground arith) in
              (hdp', reply, bv', ground (arith, at_i, e), valid')
        ]
      ]

-- A vote whose index passes `ValidateBasic` is taken without a panic, and the package stays valid:
-- its totals are the weights of the votes that it has recorded, each validator once.
pub add_vote-IsValid_package :
    (wire : Wire) (hdp : HeightDataPackage) (bv : BitVector) (vote : Vote)
    → IsValid hdp bv
    → validate_basic vote ≡ none
    → (hdp' : HeightDataPackage) × (reply : Option Error) × (bv' : BitVector) × (add_vote wire hdp
          vote
        ≡ returns (hdp', reply))
      × IsValid hdp' bv'
add_vote-IsValid_package wire hdp bv vote valid basic =
    let (i, e) = index-cases vote basic in add_vote_at wire hdp bv vote i valid e
