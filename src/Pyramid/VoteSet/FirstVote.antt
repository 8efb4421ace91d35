-- ===== src/Pyramid/VoteSet/FirstVote.antt =====
-- source/pyramid/consensus/constypes/vote_set.go: lemmas on the branch for a first vote.
use urd_code.Prelude.{
  ℕ, zero, suc, ◌+◌, ◌*◌, ◌/◌, ◌≤◌, ◌<◌, ◌≡◌, refl, ◌∙◌, ◌≢◌, inl, inr, Bool, true, false, Option,
  none, some, List, [], ◌∷◌, arith, if◌then◌else◌, ltb, ltb→lt, ◌==◌, bool_eq, bool_eq_iff,
  get_elem?, set, length, length-set, get_elem?-set_self, get_elem?-set_ne, Bool-cases,
}
use urd_code.Prelude.Int.{pos}
use urd_code.Prelude.Bytes.{Bytes, bytes_eq, bytes_eq_iff}
use urd_code.Prelude.Maps.{Map, insert, lookup-insert}
use urd_code.Prelude.Calls.{returns}
use urd_code.Prelude.Words.{add_32, double_32, third_32, gtb_32, gtb_32-third_32}
use urd_code.BitVector.{BitVector, bit, get_index}
use urd_code.BitVector.Index.{
  get_index-eq-bit, set_index-eq-written, written, written-IsValid, bit-written, bits-written,
}
use urd_code.Pyramid.VoteSet.{
  Vote, Count, VoteSet, VoteError, counters, at_code, add_at, find_majority, first_vote,
}
use urd_code.Pyramid.VoteSet.Tally.{sum, tally, is_for, tally-set, tally-le-sum}
use urd_code.Pyramid.VoteSet.Invariant.{IsCounted, IsValid, is_some}

pub get_elem?-lt : (ws : List ℕ) (i w : ℕ) → get_elem? ws i ≡ some w → i < length ws
get_elem?-lt [] i w h = cc
get_elem?-lt (x ∷ ws) zero w h = omega arith
get_elem?-lt (x ∷ ws) (suc i) w h = omega (arith, get_elem?-lt ws i w h)

counters-insert :
    (key k : Bytes) (u : Count) (cnt : Map Count)
    → counters k (insert key u cnt) ≡ (if bytes_eq key k then u else counters k cnt)
counters-insert key k u cnt = ground (arith, lookup-insert key k u cnt)

at_code-add_at :
    (ok c : Bool) (w : ℕ) (u : Count)
    → at_code c (add_at ok w u) ≡ (if bool_eq ok c then add_32 (at_code c u) w else at_code c u)
at_code-add_at true true w u = refl
at_code-add_at true false w u = refl
at_code-add_at false true w u = refl
at_code-add_at false false w u = refl

-- The set after a first vote is counted, before the test for a majority.
recorded : VoteSet → Vote → ℕ → ℕ → BitVector → VoteSet
recorded vs vote i w bv = record vs {
  bit_vector = some (written bv i true);
  votes = set vs.votes i (some vote);
  block_header_hash_cnt =
      insert vote.block_header_hash
        (add_at vote.is_ok w (counters vote.block_header_hash vs.block_header_hash_cnt))
        vs.block_header_hash_cnt;
}

module _ (vs : VoteSet) (vote : Vote) where
  abbrev test : Bool
  test =
      gtb_32 (at_code vote.is_ok (counters vote.block_header_hash vs.block_header_hash_cnt))
        (third_32 (double_32 vs.total_votes))

  majority_kept : vs.has_mj23 ≡ true → find_majority vs vote ≡ vs
  unfolding find_majority
  majority_kept h = ground arith

  majority_none : vs.has_mj23 ≡ false → test ≡ false → find_majority vs vote ≡ vs
  unfolding find_majority
  majority_none h e = ground arith

  majority_new :
      vs.has_mj23 ≡ false
      → test ≡ true
      → find_majority vs vote
        ≡ record vs { has_mj23 = true; mj23_key = vote.block_header_hash; mj23_code = vote.is_ok }
  unfolding find_majority
  majority_new h e = ground arith

module _ (ws : List ℕ) (vs : VoteSet) (bv : BitVector) (vote : Vote) (ok : IsCounted ws vs bv) where
  majority_test :
      gtb_32
        (at_code vote.is_ok (counters vote.block_header_hash vs.block_header_hash_cnt))
        (third_32 (double_32 vs.total_votes))
      ≡ ltb (2 * sum ws / 3) (tally vote.block_header_hash vote.is_ok ws vs.votes)
  majority_test =
      rw (ok.total, ok.counted vote.block_header_hash vote.is_ok)
        (gtb_32-third_32 (tally vote.block_header_hash vote.is_ok ws vs.votes) (sum ws) ok.small
          (omega (arith, ok.small, tally-le-sum vote.block_header_hash vote.is_ok ws vs.votes)))

  abbrev over : Bool
  over = ltb (2 * sum ws / 3) (tally vote.block_header_hash vote.is_ok ws vs.votes)

  none_over :
      over ≡ false
      → (vs.has_mj23 ≡ false
          → (k : Bytes) (c : Bool) → is_for k c vote ≡ false
          → tally k c ws vs.votes ≤ 2 * sum ws / 3)
      → vs.has_mj23 ≡ false
      → (k : Bytes) (c : Bool) → tally k c ws vs.votes ≤ 2 * sum ws / 3
  none_over e rest h k c =
      ground (arith, rest h k c, bytes_eq_iff vote.block_header_hash k, bool_eq_iff vote.is_ok c)

  -- The test for a majority completes a set whose counters are right.
  find_majority-IsValid :
      (vs.has_mj23 ≡ true → 2 * sum ws / 3 < tally vs.mj23_key vs.mj23_code ws vs.votes)
      → (vs.has_mj23 ≡ false
          → (k : Bytes) (c : Bool) → is_for k c vote ≡ false
          → tally k c ws vs.votes ≤ 2 * sum ws / 3)
      → IsValid ws (find_majority vs vote) bv
  find_majority-IsValid old rest = elim (Bool-cases vs.has_mj23) [
    | inl h ↦ rw (majority_kept vs vote h) (record { counts = ok; found = old; missed = λ bad. cc })
    | inr h ↦ elim (Bool-cases over) [
      | inl e ↦ rw (majority_new vs vote h (majority_test ∙ e)) (record {
        counts = record {
          num = ok.num;
          total = ok.total;
          small = ok.small;
          vector = ok.vector;
          vector_valid = ok.vector_valid;
          vector_size = ok.vector_size;
          slots = ok.slots;
          seen = ok.seen;
          counted = ok.counted;
        };
        found = λ _. ltb→lt _ _ e;
        missed = λ bad. cc;
      })
      | inr e ↦
          rw (majority_none vs vote h (majority_test ∙ e))
            (record { counts = ok; found = λ bad. cc; missed = λ _ k c. none_over e rest h k c })
    ]
  ]

module _ (ws : List ℕ) (vs : VoteSet) (bv : BitVector) (valid : IsValid ws vs bv) (vote : Vote)
    (i w : ℕ) (at_i : vote.index ≡ pos i) (weight : get_elem? ws i ≡ some w) where
  in_range : i < length ws
  in_range = get_elem?-lt ws i w weight

  in_size : i < bv.bits
  in_size = omega (arith, valid.vector_size, in_range)

  pub reads_bit : get_index vs.bit_vector vote.index ≡ returns (bit bv i)
  reads_bit = rw (valid.vector, at_i) (get_index-eq-bit bv i valid.vector_valid in_size)

  module _ (fresh : get_elem? vs.votes i ≡ some none) where
    first_vote-eq :
        first_vote vs vote w ≡ returns (find_majority (recorded vs vote i w bv) vote, none)
    unfolding first_vote recorded
    first_vote-eq =
        rw (valid.vector, at_i, set_index-eq-written bv i valid.vector_valid in_size true, fresh)

    counted_recorded :
        (k : Bytes) (c : Bool)
        → let vs' = recorded vs vote i w bv in
          at_code c (counters k vs'.block_header_hash_cnt) ≡ tally k c ws vs'.votes
    unfolding recorded
    counted_recorded k c = rw counters-insert (
        ground (
          arith,
          at_code-add_at vote.is_ok c w (counters vote.block_header_hash vs.block_header_hash_cnt),
          bytes_eq_iff vote.block_header_hash k,
          valid.counted k c,
          valid.small,
          tally-set k c ws vs.votes i w vote weight fresh,
          tally-le-sum k c ws (set vs.votes i (some vote)),
        ))

    -- The tallies grow by the weight, for the block and the code of the vote.
    tally-recorded :
        (k : Bytes) (c : Bool)
        → tally k c ws (recorded vs vote i w bv).votes
          ≡ tally k c ws vs.votes + (if is_for k c vote then w else 0)
    unfolding recorded
    tally-recorded k c = tally-set k c ws vs.votes i w vote weight fresh

    seen_recorded :
        (j : ℕ)
        → j < length ws
        → bit (written bv i true) j ≡ is_some (get_elem? (recorded vs vote i w bv).votes j)
    unfolding recorded
    seen_recorded j lt = elim (Bool-cases (i == j)) [
      | inl e ↦
          let e' : i ≡ j = ground arith in
          rw (bit-written bv i valid.vector_valid in_size true j, ← e')
            (ground (
              arith,
              get_elem?-set_self vs.votes i (some vote) (omega (arith, valid.slots, in_range)),
            ))
      | inr n ↦
          let n' : i ≢ j = ground arith in
          rw (bit-written bv i valid.vector_valid in_size true j)
            (ground (arith, valid.seen j lt, get_elem?-set_ne vs.votes (some vote) n'))
    ]

    recorded-IsCounted : IsCounted ws (recorded vs vote i w bv) (written bv i true)
    recorded-IsCounted = record {
      num = unfold recorded in valid.num;
      total = unfold recorded in valid.total;
      small = valid.small;
      vector = unfold recorded in refl;
      vector_valid = written-IsValid bv i valid.vector_valid in_size true;
      vector_size = bits-written bv i true ∙ valid.vector_size;
      slots = unfold recorded in length-set vs.votes i (some vote) ∙ valid.slots;
      seen = seen_recorded;
      counted = counted_recorded;
    }

    old_found :
        (recorded vs vote i w bv).has_mj23 ≡ true
        → 2 * sum ws / 3
          < tally
              (recorded vs vote i w bv).mj23_key
              (recorded vs vote i w bv).mj23_code
              ws
              (recorded vs vote i w bv).votes
    unfolding recorded
    old_found h = omega (arith, valid.found h, tally-recorded vs.mj23_key vs.mj23_code)

    still_missed :
        (recorded vs vote i w bv).has_mj23 ≡ false
        → (k : Bytes) (c : Bool) → is_for k c vote ≡ false
        → tally k c ws (recorded vs vote i w bv).votes ≤ 2 * sum ws / 3
    unfolding recorded
    still_missed h k c other = ground (arith, valid.missed h k c, tally-recorded k c)

    -- A first vote is counted, does not panic and reports no error.
    pub first_vote-IsValid :
        (vs' : VoteSet) × (first_vote vs vote w ≡ returns (vs', none))
        × IsValid ws vs' (written bv i true)
    first_vote-IsValid = (
      find_majority (recorded vs vote i w bv) vote,
      first_vote-eq,
      find_majority-IsValid ws (recorded vs vote i w bv) (written bv i true) vote recorded-IsCounted
          old_found still_missed,
    )

    -- The vote stands in its slot.
    pub first_vote-stores :
        (vs' : VoteSet)
        → first_vote vs vote w ≡ returns (vs', none)
        → get_elem? vs'.votes i ≡ some (some vote)
    unfolding recorded find_majority
    first_vote-stores vs' e = ground (
      arith,
      first_vote-eq,
      get_elem?-set_self vs.votes i (some vote) (omega (arith, valid.slots, in_range)),
    )

    pub first_vote-keeps :
        (vs' : VoteSet) (reply : Option VoteError)
        → vs.has_mj23 ≡ true
        → first_vote vs vote w ≡ returns (vs', reply)
        → (vs'.has_mj23 ≡ true) × (vs'.mj23_key ≡ vs.mj23_key) × (vs'.mj23_code ≡ vs.mj23_code)
    unfolding recorded
    first_vote-keeps vs' reply h e =
        ground (arith, first_vote-eq, majority_kept (recorded vs vote i w bv) vote)
