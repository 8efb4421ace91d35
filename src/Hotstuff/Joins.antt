-- ===== src/Hotstuff/Joins.antt =====
-- source/core/hotstuff/height_datas.go: the aggregated vote of a package.
use urd_code.Prelude.{
  ℕ, ◌+◌, ◌<◌, ◌≡◌, refl, ap, ◌∙◌, sym, inl, inr, Bool, true, Option, none, some, List, [], ◌∷◌,
  ◌++◌, arith, if◌then◌else◌, bool_eq, length, Bool-cases,
}
use urd_code.Prelude.Int.{pos}
use urd_code.Prelude.Bytes.{Bytes}
use urd_code.Prelude.Calls.{returns, ◌>>=◌}
use mathlib.Core.List.{append_assoc, append-nil}
use urd_code.BitVector.{BitVector, bit, set_index, new_bit_vector}
use urd_code.BitVector
use urd_code.BitVector.Index.{
  new_bit_vector-IsValid, set_index-eq-written, written, written-IsValid, bits-written,
}
use urd_code.Hotstuff.Votes.{Vote, AggregatedVote, is_ok, get_aggregated}
use urd_code.Hotstuff.Package.{
  HeightDataPackage, Gathered, gather, seal, make_maj23, maj23_code, get_maj23,
}
use urd_code.Hotstuff.Quorum.{IsValid}

-- The signatures of all recorded votes, in the order of the validators.
unfoldable pub all_signatures : List (Option Vote) → List Bytes
all_signatures [] = []
all_signatures (none ∷ vs) = all_signatures vs
all_signatures (some v ∷ vs) = v.sign ∷ all_signatures vs

next_marks :
    (agreed : Bool) (i : ℕ) (v : Vote) (g : Gathered) (b : BitVector)
    → g.marks ≡ some b
    → BitVector.IsValid b
    → i < b.bits
    → (b' : BitVector) × (b'.bits ≡ b.bits)
      × BitVector.IsValid b'
      × ((if bool_eq (is_ok v) agreed
            then set_index g.marks (pos i) true
            else returns (g.marks, true))
          ≡ returns (some b', true))
next_marks agreed i v g b m ok lt = elim (Bool-cases (bool_eq (is_ok v) agreed)) [
  | inl e ↦ (
    written b i true,
    bits-written b i true,
    written-IsValid b i ok lt true,
    rw (e, m) (set_index-eq-written b i ok lt true),
  )
  | inr e ↦ (b, refl, ok, rw (e, m))
]

gather_step :
    (agreed : Bool) (i : ℕ) (v : Vote) (vs : List (Option Vote)) (g : Gathered) (b' : BitVector)
    → (if bool_eq (is_ok v) agreed then set_index g.marks (pos i) true else returns (g.marks, true))
      ≡ returns (some b', true)
    → gather agreed i (some v ∷ vs) g
      ≡ gather agreed (i + 1) vs (record {
        signs = g.signs ++ v.sign ∷ [];
        marks = some b';
        data_of_last = v.for_necessary_data;
      })
unfolding gather
gather_step agreed i v vs g b' e =
    ap
      (λ m. m >>= λ bv. gather agreed (i + 1) vs (record {
        signs = g.signs ++ v.sign ∷ [];
        marks = bv.0;
        data_of_last = v.for_necessary_data;
      }))
      e

gather-signs :
    (agreed : Bool) (vs : List (Option Vote)) (i : ℕ) (g : Gathered) (b : BitVector)
    → g.marks ≡ some b
    → BitVector.IsValid b
    → i + length vs ≡ b.bits
    → (g' : Gathered) × (gather agreed i vs g ≡ returns g')
      × (g'.signs ≡ g.signs ++ all_signatures vs)
unfolding gather all_signatures
gather-signs agreed [] i g b m ok n = (g, refl, sym (append-nil g.signs))
gather-signs agreed (none ∷ vs) i g b m ok n = gather-signs agreed vs (i + 1) g b m ok (omega arith)
gather-signs agreed (some v ∷ vs) i g b m ok n =
    let (b', sized, ok', e) = next_marks agreed i v g b m ok (omega arith) in
    let (g', e', signs) =
      gather-signs agreed vs (i + 1)
        (record {
          signs = g.signs ++ v.sign ∷ [];
          marks = some b';
          data_of_last = v.for_necessary_data;
        })
        b' refl ok' (omega arith) in
    (
      g',
      gather_step agreed i v vs g b' e ∙ e',
      signs ∙ append_assoc g.signs (v.sign ∷ []) (all_signatures vs),
    )

sealed :
    (agg : List Bytes → Option Bytes) (hdp : HeightDataPackage) (vote : Vote) (g : Gathered)
    (sig : Bytes)
    → gather (is_ok vote) 0 hdp.votes (record {
      signs = [];
      marks = new_bit_vector (pos hdp.validator_set.keys);
      data_of_last = [];
    })
      ≡ returns g
    → agg g.signs ≡ some sig
    → make_maj23 agg hdp (some vote) ≡ (
        let a =
          get_aggregated
            (record vote { for_necessary_data = g.data_of_last; sign = sig })
            g.marks in
        returns (record hdp { agg_vote = some a }, some a, none))
sealed agg hdp vote g sig e joined =
    ap (λ m. m >>= λ h. returns (seal agg hdp vote h)) e ∙ ground (arith, joined)

no_agg :
    (hdp : HeightDataPackage)
    → hdp.agg_vote ≡ none
    → (agg : List Bytes → Option Bytes) → get_maj23 agg hdp ≡ make_maj23 agg hdp (maj23_code hdp)
unfolding get_maj23
no_agg hdp e agg = ground (arith, e)

-- Where the package has a majority and no aggregated vote yet, the aggregated vote is made without
-- a panic, and its signature joins those of all recorded votes, also of the votes whose code is
-- not that of the majority.
pub get_maj23-joins_all :
    (hdp : HeightDataPackage) (bv : BitVector) (aggregate_signatures : List Bytes → Option Bytes)
    (vote : Vote) (sig : Bytes)
    → IsValid hdp bv
    → hdp.agg_vote ≡ none
    → maj23_code hdp ≡ some vote
    → aggregate_signatures (all_signatures hdp.votes) ≡ some sig
    → (agg : AggregatedVote) × (get_maj23 aggregate_signatures hdp
        ≡ returns (record hdp { agg_vote = some agg }, some agg, none))
      × (agg.sign ≡ sig)
      × (agg.code ≡ vote.code)
get_maj23-joins_all hdp bv agg vote sig valid fresh maj joined =
    let (b, e, sized, ok) = new_bit_vector-IsValid hdp.validator_set.keys in
    let start : Gathered = record {
      signs = [];
      marks = new_bit_vector (pos hdp.validator_set.keys);
      data_of_last = [];
    } in
    let (g, made, signs) =
      gather-signs (is_ok vote) hdp.votes 0 start b e ok (omega (arith, valid.slots)) in
    (
      get_aggregated (record vote { for_necessary_data = g.data_of_last; sign = sig }) g.marks,
      no_agg hdp fresh agg
          ∙ ap (make_maj23 agg hdp) maj
          ∙ sealed agg hdp vote g sig made (ap agg signs ∙ joined),
      refl,
      refl,
    )
