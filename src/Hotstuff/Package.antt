-- ===== src/Hotstuff/Package.antt =====
-- source/core/hotstuff/height_datas.go: the votes for the proposal of one view and round, and the
-- aggregated vote. Weights are Go ints of a configuration and far below 2 ^ 62, so their sums are
-- those of the numbers.
use urd_code.Prelude.{
  ℕ, ◌+◌, ◌*◌, ◌/◌, Bool, true, not, ◌||◌, Option, none, some, List, [], ◌∷◌, ◌++◌, if◌then◌else◌,
  bool_eq, leb, get_elem?, set, replicate,
}
use urd_code.Prelude.Int.{ℤ, pos, negsuc, eqb_ℤ}
use urd_code.Prelude.Bytes.{Bytes, bytes_eq}
use urd_code.Prelude.Calls.{Call, returns, panics, ◌>>=◌}
use urd_code.BitVector.{BitVector, new_bit_vector, set_index, byte}
use urd_code.Signer.{Verifier, verify, verify_aggregate_signature}
use urd_code.Hotstuff.Votes.{
  Error, invalid_vote_code, invalid_sign, duplicated_vote, no_maj23, aggregation, Vote,
  AggregatedVote, Wire, is_ok, set_ok, set_reject, get_aggregated, sign_bytes,
  sign_bytes_aggregated,
}

pub record HeightDataPackage : Type 0 where
  pub proposal_hash : Bytes
  pub view : ℤ
  pub round : ℤ
  pub votes : List (Option Vote)
  pub votes_bit_vector : Option BitVector
  pub votes_total : ℕ
  pub reject_total : ℕ
  pub votes_needed : ℕ
  pub per_vote : List ℕ
  pub validator_set : Verifier
  pub agg_vote : Option AggregatedVote

-- The loop that sums the weights.
unfoldable pub sum_votes : List ℕ → ℕ
sum_votes [] = 0
sum_votes (w ∷ ws) = w + sum_votes ws

unfoldable pub new_height_data_package : Verifier → List ℕ → ℤ → ℤ → HeightDataPackage
unfolding sum_votes new_bit_vector
new_height_data_package vs per_vote view round = record {
  proposal_hash = [];
  view = view;
  round = round;
  votes = replicate vs.keys none;
  votes_bit_vector = new_bit_vector (pos vs.keys);
  votes_total = 0;
  reject_total = 0;
  votes_needed = sum_votes per_vote;
  per_vote = per_vote;
  validator_set = vs;
  agg_vote = none;
}

abbrev pub at_index {ℓ} : {A : Type ℓ} → List A → ℤ → Call A
at_index xs (pos i) = elim (get_elem? xs i) [ none ↦ panics | some x ↦ returns x ]
at_index xs (negsuc _) = panics

-- `xs[i] = x`, after `xs[i]` was read.
abbrev pub put_index {ℓ} : {A : Type ℓ} → List A → ℤ → A → List A
put_index xs (pos i) x = set xs i x
put_index xs (negsuc _) x = xs

abbrev pub Reply : Type 0
Reply = Call (HeightDataPackage × Option Error)

-- The branch for a validator whose slot is empty.
unfoldable pub count_vote : HeightDataPackage → Vote → Reply
unfolding set_index
count_vote hdp vote = do
  w ← at_index hdp.per_vote vote.validator_index
  bv ← set_index hdp.votes_bit_vector vote.validator_index true
  returns (
    record hdp {
      votes_total = if is_ok vote then hdp.votes_total + w else hdp.votes_total;
      reject_total = if is_ok vote then hdp.reject_total else hdp.reject_total + w;
      votes = put_index hdp.votes vote.validator_index (some vote);
      votes_bit_vector = bv.0;
    },
    none,
  )

abbrev pub fill_slot : HeightDataPackage → Vote → Option Vote → Reply
fill_slot hdp vote none = count_vote hdp vote
fill_slot hdp vote (some _) = returns (hdp, some duplicated_vote)

abbrev pub matches : HeightDataPackage → Vote → Bool
matches hdp vote = not (
    not (eqb_ℤ hdp.view vote.view)
    || not (eqb_ℤ hdp.round vote.round)
    || not (bytes_eq hdp.proposal_hash vote.for_hash))

abbrev pub admit : HeightDataPackage → Vote → Reply
admit hdp vote = do slot ← at_index hdp.votes vote.validator_index; fill_slot hdp vote slot

module _ (wire : Wire) where
  unfoldable pub add_vote : HeightDataPackage → Vote → Reply
  unfolding verify count_vote bytes_eq
  add_vote hdp vote = do
    signed ← verify hdp.validator_set vote.sign (sign_bytes wire vote) vote.validator_index
    if not signed
        then returns (hdp, some invalid_sign)
        else if not (matches hdp vote)
        then returns (hdp, some invalid_vote_code)
        else admit hdp vote

unfoldable pub is_quorum : HeightDataPackage → Bool
is_quorum hdp =
    leb (2 * hdp.votes_needed / 3) hdp.votes_total
    || leb (2 * hdp.votes_needed / 3) hdp.reject_total

-- The loop of `getMaj23`: the signatures so far, the marks and the data of the last vote. It marks
-- the votes that agree, and collects the signature of every vote.
pub record Gathered : Type 0 where
  pub signs : List Bytes
  pub marks : Option BitVector
  pub data_of_last : List Bytes

unfoldable pub gather : Bool → ℕ → List (Option Vote) → Gathered → Call Gathered
unfolding set_index
gather agreed i [] g = returns g
gather agreed i (none ∷ rest) g = gather agreed (i + 1) rest g
gather agreed i (some v ∷ rest) g = do
  bv ← if bool_eq (is_ok v) agreed then set_index g.marks (pos i) true else returns (g.marks, true)
  gather agreed (i + 1) rest
      (record { signs = g.signs ++ v.sign ∷ []; marks = bv.0; data_of_last = v.for_necessary_data })

-- The vote that `getMaj23` starts from, and its code; `none` is the error for no majority.
unfoldable pub maj23_code : HeightDataPackage → Option Vote
maj23_code hdp =
    let blank : Vote = record {
      code = pos 0;
      view = hdp.view;
      round = hdp.round;
      for_hash = hdp.proposal_hash;
      for_necessary_data = [];
      sign = [];
      validator_index = pos 0;
    } in
    if leb (2 * hdp.votes_needed / 3) hdp.votes_total
    then some (set_ok blank)
    else if leb (2 * hdp.votes_needed / 3) hdp.reject_total
    then some (set_reject blank)
    else none

abbrev pub Maj23 : Type 0
Maj23 = HeightDataPackage × Option AggregatedVote × Option Error

module _ (aggregate_signatures : List Bytes → Option Bytes) where
  abbrev pub seal : HeightDataPackage → Vote → Gathered → Maj23
  seal hdp vote g = elim (aggregate_signatures g.signs) [
    | none ↦ (hdp, none, some aggregation)
    | some sig ↦
        let agg =
          get_aggregated (record vote { for_necessary_data = g.data_of_last; sign = sig })
            g.marks in
        (record hdp { agg_vote = some agg }, some agg, none)
  ]

  abbrev pub make_maj23 : HeightDataPackage → Option Vote → Call Maj23
  make_maj23 hdp none = returns (hdp, none, some no_maj23)
  make_maj23 hdp (some vote) = do
    g ← gather (is_ok vote) 0 hdp.votes (record {
      signs = [];
      marks = new_bit_vector (pos hdp.validator_set.keys);
      data_of_last = [];
    })
    returns (seal hdp vote g)

  unfoldable pub get_maj23 : HeightDataPackage → Call Maj23
  unfolding maj23_code gather new_bit_vector
  get_maj23 hdp = elim hdp.agg_vote [
    | some agg ↦ returns (hdp, some agg, none)
    | none ↦ make_maj23 hdp (maj23_code hdp)
  ]

module _ (wire : Wire) where
  unfoldable pub validate_aggregated : HeightDataPackage → AggregatedVote → Reply
  unfolding verify_aggregate_signature byte
  validate_aggregated hdp agg = do
    signed ←
        verify_aggregate_signature hdp.validator_set agg.sign (sign_bytes_aggregated wire agg)
          (byte agg.signer_indexer)
    if not signed
        then returns (hdp, some invalid_sign)
        else if not (eqb_ℤ hdp.view agg.view) || not (eqb_ℤ hdp.round agg.round)
        then returns (hdp, some invalid_vote_code)
        else returns (record hdp { agg_vote = some agg }, none)
